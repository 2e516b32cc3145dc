-- ===== src/App/WellKnown.antt =====
-- src/app/well_known.py: the documents that the service publishes about itself. `rendered` stands
-- for `strftime` on the expiry, in UTC.
use mathlib.Core.Path.{subst}
use template_fastapi.Base.{
  String, List, [], ◌∷◌, ◌++◌, Option, none, some, ◌<>◌, join, ◌≡◌, refl, ap, ◌∙◌, Passes,
}
use template_fastapi.Base.Json.{Members, member, end, str, arr, texts}
use template_fastapi.Settings.{Settings, Datetime, expected_issuer, resource_url}
use template_fastapi.Settings.Checks
use template_fastapi.Settings.Contact.{security_txt_iff, IsNear, IsContact}

unfoldable pub protected_resource_metadata : Settings → Members
protected_resource_metadata s = member "resource" (str (resource_url s)) (
    member "authorization_servers" (arr (texts (expected_issuer s ∷ []))) (
      member "scopes_supported" (arr (texts s.oidc_scopes_supported)) (
        member "bearer_methods_supported" (arr (texts ("header" ∷ [])))
          (member "resource_name" (str s.app_name) end))))

-- f"{field}: {value}"
abbrev pub line : String → String → String
line field value = field <> (": " <> value)

abbrev pub optional_line : String → Option String → List String
optional_line field none = []
optional_line field (some value) = line field value ∷ []

abbrev pub lines : (Datetime → String) → Settings → String → Datetime → List String
lines rendered s contact expires =
    line "Contact" contact
    ∷ line "Expires" (rendered expires)
    ∷ (optional_line "Preferred-Languages" s.security_txt_preferred_languages
        ++ (optional_line "Policy" s.security_txt_policy
            ++ optional_line "Canonical" s.security_txt_canonical))

abbrev pub text_of :
    (Datetime → String) → Settings → Option String → Option Datetime → Option String
text_of rendered s none expires = none
text_of rendered s (some contact) none = none
text_of rendered s (some contact) (some expires) =
    some (join "\n" (lines rendered s contact expires) <> "\n")

unfoldable pub render_security_txt : (Datetime → String) → Settings → Option String
render_security_txt rendered s = text_of rendered s s.security_txt_contact s.security_txt_expires

-- A line for a value that is set.
abbrev pub shown : String → Option String → List String
shown label none = []
shown label (some value) = (label <> (": " <> value)) ∷ []

-- What is served at `/.well-known/security.txt` for a contact: a file of the contact, an expiry
-- that is at most 366 days ahead, and the optional lines in their order.
abbrev pub IsServed : Checks.Platform → (Datetime → String) → Settings → Option String → Type 0
IsServed py rendered s none = render_security_txt rendered s ≡ none
IsServed py rendered s (some contact) =
    (expires : Datetime) × IsNear py.now (some expires)
    × (render_security_txt rendered s
        ≡ some (
            join "\n" (
              ("Contact" <> (": " <> contact))
              ∷ ("Expires" <> (": " <> rendered expires))
              ∷ (shown "Preferred-Languages" s.security_txt_preferred_languages
                  ++ (shown "Policy" s.security_txt_policy
                      ++ shown "Canonical" s.security_txt_canonical)))
            <> "\n"))

shown_lem : (label : String) (o : Option String) → optional_line label o ≡ shown label o
shown_lem label none = refl
shown_lem label (some value) = refl

served :
    (py : Checks.Platform) (rendered : Datetime → String) (s : Settings) (contact : Option String)
    (expires : Option Datetime)
    → s.security_txt_contact ≡ contact
    → s.security_txt_expires ≡ expires
    → IsContact py s contact
    → IsServed py rendered s contact
unfolding render_security_txt
served py rendered s none expires e f h = ap (λ c. text_of rendered s c s.security_txt_expires) e
served py rendered s (some c) none e f (a, b, d, near) = absurd (subst (IsNear py.now) f near)
served py rendered s (some c) (some t) e f (a, b, d, near) = (
  t,
  subst (IsNear py.now) f near,
  ap (λ o. text_of rendered s o s.security_txt_expires) e
      ∙ (ap (text_of rendered s (some c)) f
          ∙ rw
              (
                shown_lem "Preferred-Languages" s.security_txt_preferred_languages,
                shown_lem "Policy" s.security_txt_policy,
                shown_lem "Canonical" s.security_txt_canonical,
              )
              refl),
)

-- Settings that pass their validator serve the file exactly if a contact is set: it names the
-- contact, then an expiry that is still ahead when the settings are checked, and then the
-- languages, the policy and the canonical address that are set.
pub render_security_txt-IsServed :
    (py : Checks.Platform) (rendered : Datetime → String) (s : Settings)
    → Passes (Checks.validate_security_txt py s)
    → IsServed py rendered s s.security_txt_contact
render_security_txt-IsServed py rendered s h =
    served py rendered s _ _ refl refl ((security_txt_iff py s).0 h).contact
