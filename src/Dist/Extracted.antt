-- ===== src/Dist/Extracted.antt =====
-- What the steps of `assemble` of .github/scripts/assemble_dist.py have done when they succeed.
use mathlib.Core.Path.{subst}
use template_fastapi.Base.{
  Bool, true, Option, none, some, List, [], ◌∷◌, ◌++◌, map, All, Result, ok, err, ◌>>=◌, ◌>>◌,
  refuse, refuse-Passes, not, >>=-eq-ok, ok-injective, Result-cases, ◌≡◌, refl, ap, ◌∙◌, arith, inl,
  inr,
}
use template_fastapi.Base.Json.{Json}
use template_fastapi.Dist.{Text, Claims, TarInfo, check_member, checked_members, check_all}
use template_fastapi.Dist.Arches.{validate_arches, legs_of}
use template_fastapi.Dist.Assembly.{
  Failure, Failed, clash, no_filters, invalid, not_empty, disk, Tarball, Disk, Target, lift, named,
  found, tarballs, ending_error, extract_members, extract_all, is_free, prepare,
}

pub lift-ok {ℓ} :
    {A : Type ℓ} {E : Type 0} (f : E → Failed) (m : Result E A) {a : A} → lift f m ≡ ok a → m ≡ ok a
lift-ok f (ok b) h = cc
lift-ok f (err e) h = absurd (cc)

pub ending-ok :
    {A : Type 0} (arch : Text) (ending : Option Failure) (a b : A)
    → (ending_error arch ending >> ok a) ≡ ok b
    → (a ≡ b) × (ending ≡ none)
ending-ok arch none a b h = (ok-injective {E = Failed} h, refl)
ending-ok arch (some f) a b h = absurd (cc)

-- The members that an architecture's tarball has.
abbrev pub members_of : Option Tarball → List TarInfo
members_of none = []
members_of (some t) = t.members

-- The tarball is there, and reading it ends without an error.
abbrev pub IsRead : Option Tarball → Type 0
IsRead none = ⊥
IsRead (some t) = t.ending ≡ none

abbrev pub leg : Text × Tarball → Text × List TarInfo
leg (arch, t) = (arch, t.members)

-- All members, one architecture after the other.
abbrev pub all_members : List (Text × List TarInfo) → List TarInfo
all_members [] = []
all_members ((arch, ms) ∷ legs) = ms ++ all_members legs

pub found-ok : (arch : Text) (o : Option Tarball) (t : Tarball) → found arch o ≡ ok t → o ≡ some t
found-ok arch none t h = absurd (cc)
found-ok arch (some u) t h = cc

pub tarballs-ok :
    (find : Text → Option Tarball) (names : List Text) (legs : List (Text × Tarball))
    → tarballs find names ≡ ok legs
    → (map leg legs ≡ legs_of (λ a. members_of (find a)) names)
      × (All (λ l. l.1.ending ≡ none) legs → All (λ a. IsRead (find a)) names)
unfolding tarballs
tarballs-ok find [] legs h =
    subst (λ ls. (map leg ls ≡ []) × (All (λ l. l.1.ending ≡ none) ls → Unit))
      (ok-injective {E = Failed} h) (refl, λ n. tt)
tarballs-ok find (a ∷ names) legs h =
    let (t, e, h1) = >>=-eq-ok (found a (find a)) _ h in
    let (rest, f, h2) = >>=-eq-ok (tarballs find names) _ h1 in
    let (same, read) = tarballs-ok find names rest f in
    let there = found-ok a (find a) t e in
    subst
      (λ ls.
        (map leg ls ≡ legs_of (λ a. members_of (find a)) (a ∷ names))
        × (All (λ l. l.1.ending ≡ none) ls → All (λ a. IsRead (find a)) (a ∷ names)))
      (ok-injective {E = Failed} h2)
      (rw there (ap (λ ls. (a, t.members) ∷ ls) same), λ n. (rw there n.0, read n.1))

pub prepare-ok :
    {S : Type 0} (filters : Bool) (d : Disk) (find : Text → Option Tarball) (value : Json)
    (before : Target S) (legs : List (Text × Tarball))
    → prepare filters d find value before ≡ ok legs
    → (names : List Text) × (validate_arches value ≡ ok names)
      × (tarballs find names ≡ ok legs)
      × (is_free before ≡ true)
unfolding prepare
prepare-ok filters d find value before legs h =
    let (u, e, h1) = >>=-eq-ok (refuse (not filters) no_filters) _ h in
    let (names, f, h2) = >>=-eq-ok (lift invalid (validate_arches value)) _ h1 in
    let (ls, g, h3) = >>=-eq-ok (tarballs find names) _ h2 in
    let (v, k, h4) = >>=-eq-ok (refuse (not (is_free before)) not_empty) _ h3 in
    let (w, l, h5) = >>=-eq-ok (disk d.parent_error) _ h4 in
    let (x, m, h6) = >>=-eq-ok (disk d.stage_error) _ h5 in
    (
      names,
      lift-ok invalid (validate_arches value) f,
      g ∙ h6,
      ground (arith, refuse-Passes {E = Failed} (not (is_free before)) not_empty),
    )

module _ {S : Type 0} (extract : TarInfo → S → Result Failure S) where
  -- The members extracted one after the other.
  pub extracted : List TarInfo → S → Result Failure S
  extracted [] stage = ok stage
  extracted (m ∷ ms) stage = extract m stage >>= extracted ms

  pub extracted-append :
      (ms ks : List TarInfo) (s : S) → extracted (ms ++ ks) s ≡ (extracted ms s >>= extracted ks)
  unfolding extracted
  extracted-append [] ks s = refl
  extracted-append (m ∷ ms) ks s = elim (Result-cases (extract m s)) [
    | inl (s', e) ↦ rw e (extracted-append ms ks s')
    | inr (x, e) ↦ rw e refl
  ]

module _ {S : Type 0} (extract : TarInfo → S → Result Failure S) (nothing : S) where
  pub extract_members-ok :
      (arch : Text) (ms : List TarInfo) (ending : Option Failure) (c : Claims) (s : S)
      (r : Claims × S)
      → extract_members extract nothing arch ms ending (c, s) ≡ ok r
      → (checked_members arch ms c ≡ ok r.0) × (extracted extract ms s ≡ ok r.1) × (ending ≡ none)
  unfolding extract_members checked_members extracted
  extract_members-ok arch [] ending c s r h =
      let (e, n) = ending-ok arch ending (c, s) r h in
      (ap (λ (p : Claims × S). ok p.0) e, ap (λ (p : Claims × S). ok p.1) e, n)
  extract_members-ok arch (m ∷ ms) ending c s r h =
      let (c', e, h1) = >>=-eq-ok (lift clash (check_member arch m c)) _ h in
      let (s', f, h2) = >>=-eq-ok (lift (named arch) (extract m s)) _ h1 in
      let (a, b, n) = extract_members-ok arch ms ending c' s' r h2 in
      (
        rw (lift-ok clash (check_member arch m c) e) a,
        rw (lift-ok (named arch) (extract m s) f) b,
        n,
      )

  pub extract_all-ok :
      (legs : List (Text × Tarball)) (c : Claims) (s : S) (r : Claims × S)
      → extract_all extract nothing legs (c, s) ≡ ok r
      → (check_all (map leg legs) c ≡ ok r.0)
        × (extracted extract (all_members (map leg legs)) s ≡ ok r.1)
        × All (λ l. l.1.ending ≡ none) legs
  unfolding extract_all check_all extracted
  extract_all-ok [] c s r h =
      let e = ok-injective {E = Failed} h in
      (ap (λ (p : Claims × S). ok p.0) e, ap (λ (p : Claims × S). ok p.1) e, tt)
  extract_all-ok ((arch, t) ∷ legs) c s r h =
      let ((c', s'), e, h1) =
        >>=-eq-ok (extract_members extract nothing arch t.members t.ending (c, s)) _ h in
      let (a, b, n) = extract_members-ok arch t.members t.ending c s (c', s') e in
      let (a', b', ns) = extract_all-ok legs c' s' r h1 in
      (rw a a', extracted-append extract t.members _ s ∙ rw b b', (n, ns))
