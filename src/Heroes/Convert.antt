-- ===== src/Heroes/Convert.antt =====
-- The conversions of src/app/views/hero_v1.py lose nothing that the deprecated shape can show.

use template_fastapi.Base.{
  String, Bool, true, List, [], ◌∷◌, Option, none, some, ok, err, ◌≡◌, ◌≢◌, refl, ap, ◌∙◌, arith,
  sym,
}
use mathlib.Core.Path.{subst}
use template_fastapi.Heroes.{
  is_name, is_optional, are_powers, HeroV1, HeroV1Create, Sent, unset, null, sent, HeroV1Update,
  HeroV2Create, HeroV2Update, HeroV2, is_sent, v1_ok, v1_create_ok, v1_update_ok, v2_create_ok,
  v2_update_ok, v2_ok, built, or_draft, first_power, hero_v2_to_v1, hero_v1_create_to_v2, powers_of,
  update_of, hero_v1_update_to_v2,
}

built-ok : {A : Type 0} (p : A → Bool) (a : A) → p a ≡ true → built p a ≡ ok a
built-ok p a h = ground arith

draft-name : (s : String) → is_name s ≡ true → (or_draft (some s) ≡ s)
draft-name String.[] h = absurd (ground arith)
draft-name (String.◌∷◌ c s) h = refl

name-ok : (o : Option String) → is_optional is_name o ≡ true → is_name (or_draft o) ≡ true
name-ok none h = refl
name-ok (some s) h = ap is_name (draft-name s h) ∙ h

power-ok :
    (o : Option (List String)) → is_optional are_powers o ≡ true → is_name (first_power o) ≡ true
power-ok none h = refl
power-ok (some []) h = refl
power-ok (some (p ∷ ps)) h = ground arith

-- What the deprecated shape shows of a hero.
abbrev pub Shows : HeroV2 → HeroV1 → Type 0
Shows h v =
    (v.id ≡ h.id)
    × (v.name ≡ or_draft h.name)
    × (v.superpower ≡ first_power h.powers)
    × (v.created_at ≡ h.created_at)
    × (v.updated_at ≡ h.updated_at)

-- A hero that meets its constraints, a draft too, has a deprecated shape, and this meets its own
-- constraints: the conversion never raises.
pub hero_v2_to_v1-total :
    (h : HeroV2)
    → v2_ok h ≡ true
    → (v : HeroV1) × (hero_v2_to_v1 h ≡ ok v) × (v1_ok v ≡ true) × Shows h v
unfolding hero_v2_to_v1
hero_v2_to_v1-total h e =
    let n = name-ok h.name (ground arith) in
    let p = power-ok h.powers (ground arith) in
    let v : HeroV1 = record {
      id = h.id;
      name = or_draft h.name;
      superpower = first_power h.powers;
      created_at = h.created_at;
      updated_at = h.updated_at;
    } in
    let good : v1_ok v ≡ true = ground arith in
    (v, built-ok v1_ok v good, good, (refl, refl, refl, refl, refl))

-- A hero that is created in the deprecated shape and meets its constraints is accepted by the
-- current one, and every hero with its name and powers shows the name and the power that were
-- sent.
pub hero_v1_create_to_v2-hero_v2_to_v1 :
    (p : HeroV1Create)
    → v1_create_ok p ≡ true
    → (c : HeroV2Create) × (hero_v1_create_to_v2 p ≡ ok c)
      × ((h : HeroV2)
          → h.name ≡ some c.name
          → h.powers ≡ some c.powers
          → (v : HeroV1) × (hero_v2_to_v1 h ≡ ok v)
            × (v.name ≡ p.name)
            × (v.superpower ≡ p.superpower))
unfolding hero_v1_create_to_v2
hero_v1_create_to_v2-hero_v2_to_v1 p e =
    let c : HeroV2Create = record {
      name = p.name;
      powers = p.superpower ∷ [];
      power_level = none;
    } in
    (
      c,
      built-ok v2_create_ok c (ground arith),
      λ h n q.
          let (v, f, g, (i, shown, power, made, changed)) =
            hero_v2_to_v1-total h (rw (n, q) (ground arith)) in
          (
            v,
            f,
            shown ∙ (ap or_draft n ∙ draft-name p.name (ground arith)),
            power ∙ ap first_power q,
          ),
    )

-- A power that is not sent leaves the powers unsent; one that is sent is the only one.
abbrev pub SetsPower : Sent String → Sent (List String) → Type 0
SetsPower unset powers = powers ≡ unset
SetsPower null powers = ⊥
SetsPower (sent s) powers = powers ≡ sent (s ∷ [])

-- What a converted update changes: the name and the power, as they were sent, and nothing else.
abbrev pub Updates : HeroV1Update → HeroV2Update → Type 0
Updates p u =
    (u.name ≡ p.name)
    × SetsPower p.superpower u.powers
    × (u.power_level ≡ unset)
    × (u.is_locked ≡ unset)
    × (u.publish_at ≡ unset)
    × (u.unpublish_at ≡ unset)

update_of-Updates :
    (p : HeroV1Update) (powers : Sent (List String))
    → v1_update_ok p ≡ true
    → is_sent are_powers powers ≡ true
    → SetsPower p.superpower powers
    → (u : HeroV2Update) × (update_of p.name (ok powers) ≡ ok u) × Updates p u
update_of-Updates p powers h k e =
    let u : HeroV2Update = record {
      name = p.name;
      powers = powers;
      power_level = unset;
      is_locked = unset;
      publish_at = unset;
      unpublish_at = unset;
    } in
    (u, built-ok v2_update_ok u (ground arith), (refl, e, refl, refl, refl, refl))

sent_update :
    (p : HeroV1Update) (s : Sent String)
    → p.superpower ≡ s
    → p.superpower ≢ null
    → v1_update_ok p ≡ true
    → (u : HeroV2Update) × (update_of p.name (powers_of p.superpower) ≡ ok u) × Updates p u
sent_update p unset e n h =
    let (u, f, g) =
      update_of-Updates p unset h refl (subst (λ x. SetsPower x unset) (sym e) refl) in
    (u, ap (λ x. update_of p.name (powers_of x)) e ∙ f, g)
sent_update p null e n h = absurd (n e)
sent_update p (sent s) e n h =
    let (u, f, g) =
      update_of-Updates p (sent (s ∷ [])) h (ground arith)
        (subst (λ x. SetsPower x (sent (s ∷ []))) (sym e) refl) in
    (u, ap (λ x. update_of p.name (powers_of x)) e ∙ f, g)

-- An update in the deprecated shape that meets its constraints converts to one with the name that
-- was sent, if one was, with the power that was sent as its only power, if one was, and with no
-- other field sent. A power that was sent as null makes the conversion raise.
pub hero_v1_update_to_v2-Updates :
    (p : HeroV1Update)
    → v1_update_ok p ≡ true
    → (p.superpower ≢ null → (u : HeroV2Update) × (hero_v1_update_to_v2 p ≡ ok u) × Updates p u)
      × (p.superpower ≡ null → (e : String) × (hero_v1_update_to_v2 p ≡ err e))
unfolding hero_v1_update_to_v2
hero_v1_update_to_v2-Updates p h = (
  λ n. sent_update p p.superpower refl n h,
  λ e. ("ValidationError", ap (λ s. update_of p.name (powers_of s)) e),
)
