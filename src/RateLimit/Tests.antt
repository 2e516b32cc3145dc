-- ===== src/RateLimit/Tests.antt =====
-- The limiter over a counter, at a rate of two calls.
use Prim.Native.Nat.{min}
use template_fastapi.Base.{
  ℕ, suc, ◌-◌, ◌≤◌, String, true, List, [], ◌∷◌, ◌&&◌, ◌==◌, string_eq, if◌then◌else◌, ok, ltb, ◌≡◌,
  refl, arith, eq_iff,
}
use template_fastapi.RateLimit.{
  Strategy, Limited, Handler, Call, request, other, runs, raises, serve, decorator, open_limiter,
  request_of, rate_limit_exceeded, not_a_request,
}
use template_fastapi.RateLimit.Served.{IsFixedWindow, calls_from, ran_for-serve_exact}
use template_fastapi.RateLimit.Window.{IsWindow, ran_for, ran_for-serve}

-- Counts of each key and scope, in one window.
abbrev counter : Strategy
counter = record {
  Item = ℕ;
  Store = String → String → ℕ;
  Broken = Unit {0};
  hit = λ item key scope st. (
    λ k s. if key == k && scope == s then suc (st k s) else st k s,
    ok (ltb (st key scope) item),
  );
}

counter-IsWindow : IsWindow counter 2 2
counter-IsWindow = record {
  used = λ st k s. st k s;
  grants = λ key scope st h. ground (arith, eq_iff key key, eq_iff scope scope);
  grows = λ key scope st k s. ground arith;
}

abbrev handler : Handler
handler = record {
  is_coroutine = true;
  module_name = "app.controllers.mock";
  name = "issue_mock_token";
  parameters = "payload" ∷ "request" ∷ [];
}

abbrev limited : Limited
limited = record { scope = "app.controllers.mock.issue_mock_token"; request_index = 1 }

decorated : decorator handler ≡ ok limited
unfolding decorator
decorated = refl

opened :
    open_limiter (λ uri redispy. redispy) "redis://cache:6379/0" ≡ ok "async+redis://cache:6379/0"
unfolding open_limiter
opened = refl

abbrev call_of : String → Call
call_of address = record { args = other ∷ (request address ∷ []); kwargs = [] }

abbrev calls : List Call
calls =
    call_of "10.0.0.1"
    ∷ call_of "10.0.0.2"
    ∷ call_of "10.0.0.1"
    ∷ call_of "10.0.0.1"
    ∷ record { args = []; kwargs = ("request", request "10.0.0.2") ∷ [] }
    ∷ record { args = []; kwargs = [] }
    ∷ []

served :
    serve counter 2 limited true calls (λ k s. 0)
    ≡ runs ∷ runs ∷ runs ∷ raises rate_limit_exceeded ∷ runs ∷ raises not_a_request ∷ []
unfolding serve request_of
served = refl

ran_for-serve_example :
    ran_for "10.0.0.1" limited calls (serve counter 2 limited true calls (λ k s. 0)) ≤ 2 - 0
unfolding counter-IsWindow
ran_for-serve_example = ran_for-serve limited counter-IsWindow "10.0.0.1" refl calls (λ k s. 0)

counter-IsFixedWindow : IsFixedWindow counter 2 2
counter-IsFixedWindow = record {
  used = λ st k s. st k s;
  passes = λ key scope st. refl;
  counts = λ key scope st k s. refl;
}

ran_for-serve_exact_example :
    ran_for "10.0.0.1" limited calls (serve counter 2 limited true calls (λ k s. 0))
    ≡ min (calls_from "10.0.0.1" limited calls) (2 - 0)
unfolding counter-IsFixedWindow
ran_for-serve_exact_example =
    ran_for-serve_exact limited counter-IsFixedWindow "10.0.0.1" refl calls (λ k s. 0)
