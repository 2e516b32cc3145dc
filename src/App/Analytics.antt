-- ===== src/App/Analytics.antt =====
-- src/app/analytics.py and src/app/crud_1/analytics_events.py: what a request says about tracking,
-- and the events of a resource that are recorded. `track` is the library's; `Headers` and the
-- wrapped sink are parameters.
use template_fastapi.Base.{
  ℕ, String, Bool, ◌||◌, Option, none, some, List, [], ◌∷◌, length, if◌then◌else◌, ◌==◌, string_eq,
  ◌<>◌, Result, ok, err, ◌≡◌, refl, Bool-cases, inl, inr,
}
use template_fastapi.Manifest.Lines.{is_space, strip_by}

-- The signals of a request.
pub record Signals : Type 0 where
  pub gpc : Bool
  pub consent : Bool

-- The header's value, or the empty text.
abbrev pub or_empty : Option String → String
or_empty none = ""
or_empty (some v) = v

abbrev pub signalled : (String → Option String) → String → Bool
signalled headers name = strip_by is_space (or_empty (headers name)) == "1"

-- `AnalyticsContextMiddleware`: the context that the app runs in, if there is one.
unfoldable pub analytics_context : String → (String → Option String) → Option Signals
analytics_context kind headers =
    if kind == "http"
    then some (record {
      gpc = signalled headers "Sec-GPC" || signalled headers "DNT";
      consent = signalled headers "Analytics-Consent";
    })
    else none

-- A mutation that a resource publishes; the snapshot's list of powers is none where it has no list.
pub record Event : Type 0 where
  pub resource : String
  pub record_id : ℕ
  pub action : String
  pub powers : Option (List String)

-- What `track` is called with: the event's name, the property `powers_count`, and the path.
pub record Tracked : Type 0 where
  pub name : String
  pub powers_count : ℕ
  pub url : String

abbrev pub event_suffix : String → Option String
event_suffix action =
    if action == "create"
    then some "created"
    else if action == "delete"
    then some "deleted"
    else none

-- `_hero_analytics_props`
abbrev pub hero_analytics_props : Event → ℕ
hero_analytics_props e = elim e.powers [ none ↦ 0 | some ps ↦ length ps ]

abbrev pub tracked_as : String → Event → Option String → List Tracked
tracked_as url e none = []
tracked_as url e (some suffix) =
    record {
      name = e.resource <> ("." <> suffix);
      powers_count = hero_analytics_props e;
      url = url;
    }
    ∷ []

abbrev pub then_track : {X : Type 0} → List Tracked → Result X (Unit {0}) → Result X (List Tracked)
then_track tracked (ok u) = ok tracked
then_track tracked (err x) = err x

-- `AnalyticsEventSink.publish`: the wrapped sink first, which may raise.
unfoldable pub publish :
    {X : Type 0} → (Event → Result X (Unit {0})) → String → Event → Result X (List Tracked)
publish inner url e = then_track (tracked_as url e (event_suffix e.action)) (inner e)

-- A publication fails exactly as the wrapped sink does. One that does not records at most one
-- event, for a create or a delete and for nothing else, and says of the record no more than its
-- resource and the number of its powers.
pub publish_lem :
    {X : Type 0} (inner : Event → Result X (Unit {0})) (url : String) (e : Event)
    → ((x : X) → inner e ≡ err x → publish inner url e ≡ err x)
      × (inner e ≡ ok tt
          → publish inner url e
            ≡ ok (
                if e.action == "create"
                then record {
                  name = e.resource <> ".created";
                  powers_count = hero_analytics_props e;
                  url = url;
                }
                  ∷ []
                else if e.action == "delete"
                then record {
                  name = e.resource <> ".deleted";
                  powers_count = hero_analytics_props e;
                  url = url;
                }
                  ∷ []
                else []))
unfolding publish
publish_lem inner url e = (
  λ x h. rw h refl,
  λ h. rw h (elim (Bool-cases (e.action == "create")) [
    | inl c ↦ rw c refl
    | inr c ↦ elim (Bool-cases (e.action == "delete")) [
      | inl d ↦ rw (c, d) refl
      | inr d ↦ rw (c, d) refl
    ]
  ]),
)
