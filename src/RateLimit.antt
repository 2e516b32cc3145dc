-- ===== src/RateLimit.antt =====
-- src/app/rate_limit.py: the limiter that counts a client's calls of a route. The `limits` library
-- is a parameter: opening a storage, parsing a rate, and the fixed-window strategy's `hit` on the
-- storage's state.
pub mod Window
pub mod Served
mod Tests
use template_fastapi.Base.{
  ℕ, zero, suc, String, Bool, true, false, not, Option, none, some, List, [], ◌∷◌, ◌==◌, string_eq,
  if◌then◌else◌, is_empty, is_some, starts_with, ◌<>◌, Result, ok, err,
}
use template_fastapi.Base.Dict.{Dict, lookup}
use Prim.Native.String as Text
use text.Mathlib.Text.{find?}

abbrev pub drop : ℕ → String → String
drop zero s = s
drop (suc n) Text.[] = Text.[]
drop (suc n) (Text.◌∷◌ c s) = drop n s

-- "async+" + storage_uri.removeprefix("async+")
unfoldable pub async_uri : String → String
async_uri uri = "async+" <> (if starts_with uri "async+" then drop 6 uri else uri)

-- `"redis" in storage_uri`, where redis-py is asked for.
unfoldable pub uses_redispy : String → Bool
uses_redispy uri = is_some (find? uri "redis")

pub data LimitError : Type 0 where
  not_async : String → LimitError
  not_coroutine : LimitError
  no_request_parameter : LimitError
  not_a_request : LimitError
  rate_limit_exceeded : LimitError

-- `__init__`: opening a storage says whether it is one of the asynchronous ones.
unfoldable pub open_limiter : (String → Bool → Bool) → String → Result LimitError String
unfolding async_uri uses_redispy
open_limiter opens_async uri =
    let uri = async_uri uri in
    if opens_async uri (uses_redispy uri) then ok uri else err (not_async uri)

-- An argument of a handler: the request, by the client's address, or any other.
pub data Arg : Type 0 where
  request : String → Arg
  other : Arg

abbrev pub arg_at : List Arg → ℕ → Option Arg
arg_at [] i = none
arg_at (a ∷ args) zero = some a
arg_at (a ∷ args) (suc i) = arg_at args i

abbrev pub index_of : List String → String → Option ℕ
index_of [] x = none
index_of (y ∷ ys) x =
    if y == x then some 0 else elim (index_of ys x) [ none ↦ none | some i ↦ some (suc i) ]

-- What a function says of itself when it is decorated.
pub record Handler : Type 0 where
  pub is_coroutine : Bool
  pub module_name : String
  pub name : String
  pub parameters : List String

pub record Call : Type 0 where
  pub args : List Arg
  pub kwargs : Dict String Arg

-- A decorated route: the scope that its hits are counted under, and where its request stands.
pub record Limited : Type 0 where
  pub scope : String
  pub request_index : ℕ

abbrev pub at_index : String → Option ℕ → Result LimitError Limited
at_index scope none = err no_request_parameter
at_index scope (some i) = ok (record { scope = scope; request_index = i })

unfoldable pub decorator : Handler → Result LimitError Limited
decorator f =
    if not f.is_coroutine
    then err not_coroutine
    else at_index (f.module_name <> ("." <> f.name)) (index_of f.parameters "request")

-- The keyword argument, or the positional one.
abbrev pub or_at : Option Arg → Option Arg → Option Arg
or_at (some a) o = some a
or_at none o = o

unfoldable pub request_of : Limited → Call → Option Arg
unfolding lookup
request_of l call = or_at (lookup "request" call.kwargs) (arg_at call.args l.request_index)

-- `Item` is a parsed rate, `Store` the state of the storage, and a hit may raise.
pub record Strategy : Type 1 where
  pub Item : Type 0
  pub Store : Type 0
  pub Broken : Type 0
  pub hit : Item → String → String → Store → Store × Result Broken Bool

-- What becomes of a call: the handler runs, a 429 or a TypeError, or the storage's error.
pub data Answer (B : Type 0) : Type 0 where
  runs : Answer B
  raises : LimitError → Answer B
  breaks : B → Answer B

module _ (L : Strategy) (item : L.Item) (l : Limited) where
  abbrev pub judged : L.Store × Result L.Broken Bool → L.Store × Answer L.Broken
  judged (st, ok true) = (st, runs)
  judged (st, ok false) = (st, raises rate_limit_exceeded)
  judged (st, err b) = (st, breaks b)

  -- The client's address is the key; a client without one is not counted.
  abbrev pub check : Option Arg → L.Store → L.Store × Answer L.Broken
  check (some (request key)) st =
      if is_empty key then (st, runs) else judged (L.hit item key l.scope st)
  check _ st = (st, raises not_a_request)

  -- One call of the decorated route.
  unfoldable pub wrapper : Bool → Call → L.Store → L.Store × Answer L.Broken
  unfolding request_of
  wrapper enabled call st = if enabled then check (request_of l call) st else (st, runs)

  -- The calls of the route in the order in which they reach the storage.
  unfoldable pub serve : Bool → List Call → L.Store → List (Answer L.Broken)
  unfolding wrapper
  serve enabled [] st = []
  serve enabled (call ∷ calls) st =
      let (st, answer) = wrapper enabled call st in answer ∷ serve enabled calls st
