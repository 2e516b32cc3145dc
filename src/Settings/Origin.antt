-- ===== src/Settings/Origin.antt =====
-- When src/app/config.py accepts the public base URL.
use template_fastapi.Base.{
  String, Bool, true, false, ◌≡◌, ◌≢◌, ◌↔◌, ◌⊎◌, inl, inr, Option, none, some, starts_with, arith,
  codes, list_beq_iff, nat_eq, Option-cases, [], Passes,
}
use template_fastapi.Settings.{Settings}
use template_fastapi.Settings.Checks
use template_fastapi.Settings.Urls.{SplitResult, urlsplit}

-- An http(s) origin: a host, and nothing behind it but at most a slash.
pub record IsOrigin (parts : SplitResult) : Type 0 where
  pub web_scheme : (parts.scheme ≡ codes "http") ⊎ (parts.scheme ≡ codes "https")
  pub has_host : parts.netloc ≢ []
  pub no_path : (parts.path ≡ []) ⊎ (parts.path ≡ codes "/")
  pub no_query : parts.query ≡ []
  pub no_fragment : parts.fragment ≡ []

is_origin_iff : (parts : SplitResult) → (Checks.is_origin parts ≡ true) ↔ IsOrigin parts
is_origin_iff parts = ground (
  arith,
  list_beq_iff parts.scheme (codes "http"),
  list_beq_iff parts.scheme (codes "https"),
  list_beq_iff parts.path (codes "/"),
)

-- The base URL that a mode asks for: an origin if it is set, and in production it is set, by https.
abbrev pub IsBaseUrl : Bool → Option String → SplitResult → Type 0
IsBaseUrl prod none parts = prod ≡ false
IsBaseUrl prod (some url) parts = IsOrigin parts × (prod ≡ true → starts_with url "https://" ≡ true)

check_parts_iff :
    (prod : Bool) (url : Option String) (parts : SplitResult)
    → Passes (Checks.check_parts prod url (some parts)) ↔ IsBaseUrl prod url parts
check_parts_iff prod none parts = ground arith
check_parts_iff prod (some url) parts = ground (arith, is_origin_iff parts)

abbrev pub HasBaseUrl : Checks.Platform → Bool → Option String → Type 0
HasBaseUrl py prod url =
    (parts : SplitResult) × (urlsplit py.netloc_ok (codes (Checks.or_empty url)) ≡ some parts)
    × IsBaseUrl prod url parts

pub base_url_iff :
    (py : Checks.Platform) (s : Settings)
    → Passes (Checks.validate_public_base_url py s)
      ↔ HasBaseUrl py (Checks.is_production s.mode) s.public_base_url
unfolding Checks.validate_public_base_url
base_url_iff py s =
    let prod = Checks.is_production s.mode in
    let url = s.public_base_url in
    (
      λ h. elim (Option-cases (urlsplit py.netloc_ok (codes (Checks.or_empty url)))) [
        | inl e ↦ absurd (cc (rw e at h))
        | inr (parts, e) ↦ (parts, e, (check_parts_iff prod url parts).0 (rw e at h))
      ],
      λ (parts, e, b). rw e ((check_parts_iff prod url parts).1 b),
    )
