-- ===== src/Heroes.antt =====
-- src/app/views/hero_v1.py and src/app/views/hero_v2.py: the two shapes of a hero and the
-- conversions between them. Times are instants; a pydantic model is a record whose field
-- constraints are a test, and building it raises where the test fails.
pub mod Convert
pub mod Routers
mod Tests
use template_fastapi.Base.{
  ℕ, String, Bool, true, false, ◌&&◌, not, leb, length, codes, all, is_nil, List, [], ◌∷◌, Option,
  none, some, Result, ok, err, if◌then◌else◌, is_empty,
}
use template_fastapi.Base.Int.{ℤ}

-- `Field(min_length=1, max_length=200)`
abbrev pub is_name : String → Bool
is_name s = leb 1 (length (codes s)) && leb (length (codes s)) 200

abbrev pub is_optional {ℓ} : {A : Type ℓ} → (A → Bool) → Option A → Bool
is_optional p none = true
is_optional p (some a) = p a

-- `Field(min_length=1)` on a list of powers.
abbrev pub are_powers : List String → Bool
are_powers ps = not (is_nil ps) && all is_name ps

pub record HeroV1 : Type 0 where
  pub id : ℤ
  pub name : String
  pub superpower : String
  pub created_at : ℕ
  pub updated_at : ℕ

pub record HeroV1Create : Type 0 where
  pub name : String
  pub superpower : String

-- A field of a partial update: left out, sent as null, or sent with a value.
pub data Sent (A : Type 0) : Type 0 where
  unset : Sent A
  null : Sent A
  sent : A → Sent A

pub record HeroV1Update : Type 0 where
  pub name : Sent String
  pub superpower : Sent String

pub record HeroV2Create : Type 0 where
  pub name : String
  pub powers : List String
  pub power_level : Option ℤ

pub record HeroV2Update : Type 0 where
  pub name : Sent String
  pub powers : Sent (List String)
  pub power_level : Sent ℤ
  pub is_locked : Sent Bool
  pub publish_at : Sent ℕ
  pub unpublish_at : Sent ℕ

pub record HeroV2 : Type 0 where
  pub id : ℤ
  pub name : Option String
  pub powers : Option (List String)
  pub power_level : Option ℤ
  pub owner_id : String
  pub is_draft : Bool
  pub archived_at : Option ℕ
  pub publish_at : Option ℕ
  pub unpublish_at : Option ℕ
  pub is_locked : Bool
  pub created_at : ℕ
  pub updated_at : ℕ

abbrev pub is_sent : {A : Type 0} → (A → Bool) → Sent A → Bool
is_sent p unset = true
is_sent p null = true
is_sent p (sent a) = p a

-- The constraints of the models' fields.
abbrev pub v1_ok : HeroV1 → Bool
v1_ok h = is_name h.name && is_name h.superpower

abbrev pub v1_create_ok : HeroV1Create → Bool
v1_create_ok h = is_name h.name && is_name h.superpower

abbrev pub v1_update_ok : HeroV1Update → Bool
v1_update_ok h = is_sent is_name h.name && is_sent is_name h.superpower

abbrev pub v2_create_ok : HeroV2Create → Bool
v2_create_ok h = is_name h.name && are_powers h.powers

abbrev pub v2_update_ok : HeroV2Update → Bool
v2_update_ok h = is_sent is_name h.name && is_sent are_powers h.powers

abbrev pub v2_ok : HeroV2 → Bool
v2_ok h = is_optional is_name h.name && is_optional are_powers h.powers

-- Building a model, which raises where a constraint fails.
abbrev pub built {ℓ} : {A : Type ℓ} → (A → Bool) → A → Result String A
built p a = if p a then ok a else err "ValidationError"

abbrev pub or_draft : Option String → String
or_draft none = "(draft)"
or_draft (some s) = if is_empty s then "(draft)" else s

-- `(powers or ["(draft)"])[0]`
abbrev pub first_power : Option (List String) → String
first_power none = "(draft)"
first_power (some []) = "(draft)"
first_power (some (p ∷ ps)) = p

unfoldable pub hero_v2_to_v1 : HeroV2 → Result String HeroV1
hero_v2_to_v1 hero = built v1_ok (record {
  id = hero.id;
  name = or_draft hero.name;
  superpower = first_power hero.powers;
  created_at = hero.created_at;
  updated_at = hero.updated_at;
})

unfoldable pub hero_v1_create_to_v2 : HeroV1Create → Result String HeroV2Create
hero_v1_create_to_v2 payload =
    built v2_create_ok
      (record { name = payload.name; powers = payload.superpower ∷ []; power_level = none })

-- `data["powers"] = [data.pop("superpower")]`, where a null becomes a list of a null, which is no
-- list of powers.
abbrev pub powers_of : Sent String → Result String (Sent (List String))
powers_of unset = ok unset
powers_of null = err "ValidationError"
powers_of (sent s) = ok (sent (s ∷ []))

abbrev pub update_of : Sent String → Result String (Sent (List String)) → Result String HeroV2Update
update_of name (err e) = err e
update_of name (ok powers) = built v2_update_ok (record {
  name = name;
  powers = powers;
  power_level = unset;
  is_locked = unset;
  publish_at = unset;
  unpublish_at = unset;
})

unfoldable pub hero_v1_update_to_v2 : HeroV1Update → Result String HeroV2Update
hero_v1_update_to_v2 payload = update_of payload.name (powers_of payload.superpower)
