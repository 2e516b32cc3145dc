-- ===== src/Heroes/Tests.antt =====
-- The conversions' theorems at one hero.
use template_fastapi.Base.{String, true, false, [], ◌∷◌, none, some, ok, err, ◌≡◌, ◌≢◌, refl}
use template_fastapi.Base.Int.{pos}
use template_fastapi.Heroes.{
  HeroV1, HeroV1Create, unset, null, sent, HeroV1Update, HeroV2Create, HeroV2Update, HeroV2,
  hero_v2_to_v1, hero_v1_create_to_v2, hero_v1_update_to_v2,
}
use template_fastapi.Heroes.Convert.{
  Updates, hero_v1_create_to_v2-hero_v2_to_v1, hero_v1_update_to_v2-Updates,
}

abbrev draft : HeroV2
draft = record {
  id = pos 7;
  name = none;
  powers = some ("flight" ∷ "speed" ∷ []);
  power_level = none;
  owner_id = "alice";
  is_draft = true;
  archived_at = none;
  publish_at = none;
  unpublish_at = none;
  is_locked = false;
  created_at = 1;
  updated_at = 2;
}

abbrev storm : HeroV1Create
storm = record { name = "Storm"; superpower = "weather" }

hero_v1_create_to_v2-hero_v2_to_v1_example :
    (c : HeroV2Create) × (hero_v1_create_to_v2 storm ≡ ok c)
    × ((h : HeroV2)
        → h.name ≡ some c.name
        → h.powers ≡ some c.powers
        → (v : HeroV1) × (hero_v2_to_v1 h ≡ ok v)
          × (v.name ≡ storm.name)
          × (v.superpower ≡ storm.superpower))
hero_v1_create_to_v2-hero_v2_to_v1_example = hero_v1_create_to_v2-hero_v2_to_v1 storm refl

abbrev rename : HeroV1Update
rename = record { name = sent "Ororo"; superpower = unset }

hero_v1_update_to_v2-Updates_example :
    (rename.superpower ≢ null
      → (u : HeroV2Update) × (hero_v1_update_to_v2 rename ≡ ok u) × Updates rename u)
    × (rename.superpower ≡ null → (e : String) × (hero_v1_update_to_v2 rename ≡ err e))
hero_v1_update_to_v2-Updates_example = hero_v1_update_to_v2-Updates rename refl
