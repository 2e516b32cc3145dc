-- ===== src/Settings/Contact.antt =====
-- When src/app/config.py accepts the fields of security.txt.
use template_fastapi.Base.{
  ℕ, ◌+◌, ◌*◌, ◌≤◌, ◌<◌, String, Bool, true, false, ◌≡◌, ◌↔◌, Option, none, some, List, [], ◌∷◌,
  ◌++◌, codes, all, starts_with, arith, Passes, All, is_none,
}
use template_fastapi.Settings.{Settings, Datetime}
use template_fastapi.Settings.Checks

-- A value that may stand on a line of the file: not blank, and no control character.
abbrev pub IsLine : Checks.Platform → Option String → Type 0
IsLine py none = Unit {0}
IsLine py (some v) = (all py.is_space (codes v) ≡ false) × (all py.is_printable (codes v) ≡ true)

abbrev pub IsHttps : Option String → Type 0
IsHttps none = Unit {0}
IsHttps (some v) = starts_with v "https://" ≡ true

-- An aware instant after now and at most 366 days ahead.
abbrev pub IsNear : ℕ → Option Datetime → Type 0
IsNear now none = ⊥
IsNear now (some t) =
    (t.has_zone ≡ true) × (now < t.instant) × (t.instant ≤ now + 366 * 86_400_000_000)

abbrev pub IsContact : Checks.Platform → Settings → Option String → Type 0
IsContact py s none = Unit {0}
IsContact py s (some contact) =
    (Checks.is_contact_uri contact ≡ true)
    × IsHttps s.security_txt_policy
    × IsHttps s.security_txt_canonical
    × IsNear py.now s.security_txt_expires

pub record IsPublishable (py : Checks.Platform) (s : Settings) : Type 0 where
  pub contact_line : IsLine py s.security_txt_contact
  pub policy_line : IsLine py s.security_txt_policy
  pub languages_line : IsLine py s.security_txt_preferred_languages
  pub canonical_line : IsLine py s.security_txt_canonical
  pub contact : IsContact py s s.security_txt_contact

raise_all_iff : (xs ys : List String) → Passes (Checks.raise_all (xs ++ ys)) ↔ (xs ≡ []) × (ys ≡ [])
raise_all_iff [] [] = ground arith
raise_all_iff [] (y ∷ ys) = ground arith
raise_all_iff (x ∷ xs) ys = ground arith

not_one_line_iff :
    (py : Checks.Platform) (o : Option String) → (Checks.not_one_line py o ≡ false) ↔ IsLine py o
not_one_line_iff py none = ground arith
not_one_line_iff py (some v) = ground arith

not_https_iff : (o : Option String) → (Checks.not_https o ≡ false) ↔ IsHttps o
not_https_iff none = ground arith
not_https_iff (some v) = ground arith

is_near_iff :
    (now t : ℕ) → (Checks.is_near now t ≡ true) ↔ (now < t) × (t ≤ now + 366 * 86_400_000_000)
is_near_iff now t = ground arith

messages-eq-nil :
    (checks : List (Bool × String)) → (Checks.messages checks ≡ []) ↔ All (λ c. c.0 ≡ false) checks
messages-eq-nil [] = ground arith
messages-eq-nil ((bad, message) ∷ checks) = ground (arith, messages-eq-nil checks)

line_checks_iff :
    (py : Checks.Platform) (s : Settings)
    → (Checks.messages (Checks.line_checks py s) ≡ [])
      ↔ IsLine py s.security_txt_contact
        × IsLine py s.security_txt_policy
        × IsLine py s.security_txt_preferred_languages
        × IsLine py s.security_txt_canonical
line_checks_iff py s = ground (
  arith,
  messages-eq-nil (Checks.line_checks py s),
  not_one_line_iff py s.security_txt_contact,
  not_one_line_iff py s.security_txt_policy,
  not_one_line_iff py s.security_txt_preferred_languages,
  not_one_line_iff py s.security_txt_canonical,
)

-- The three checks on `Expires` together.
expires_iff :
    (now : ℕ) (o : Option Datetime)
    → ((is_none o ≡ false) × (Checks.is_naive o ≡ false) × (Checks.is_out_of_range now o ≡ false))
      ↔ IsNear now o
expires_iff now none = ground arith
expires_iff now (some t) = ground (arith, is_near_iff now t.instant)

contact_checks_iff :
    (py : Checks.Platform) (s : Settings) (o : Option String)
    → (Checks.messages (Checks.contact_checks py s o) ≡ []) ↔ IsContact py s o
contact_checks_iff py s none = ground arith
contact_checks_iff py s (some c) = ground (
  arith,
  messages-eq-nil (Checks.contact_checks py s (some c)),
  not_https_iff s.security_txt_policy,
  not_https_iff s.security_txt_canonical,
  expires_iff py.now s.security_txt_expires,
)

-- The validator passes exactly on the settings whose file can be published.
pub security_txt_iff :
    (py : Checks.Platform) (s : Settings)
    → Passes (Checks.validate_security_txt py s) ↔ IsPublishable py s
unfolding Checks.validate_security_txt
security_txt_iff py s =
    let lines = line_checks_iff py s in
    let contact = contact_checks_iff py s s.security_txt_contact in
    let both =
      raise_all_iff (Checks.messages (Checks.line_checks py s))
        (Checks.messages (Checks.contact_checks py s s.security_txt_contact)) in
    (
      λ h.
          let (l, c) = both.0 h in
          let (l0, l1, l2, l3) = lines.0 l in
          record {
            contact_line = l0;
            policy_line = l1;
            languages_line = l2;
            canonical_line = l3;
            contact = contact.0 c;
          },
      λ h. both.1 (
        lines.1 (h.contact_line, h.policy_line, h.languages_line, h.canonical_line),
        contact.1 h.contact,
      ),
    )
