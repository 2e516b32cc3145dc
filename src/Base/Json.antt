-- ===== src/Base/Json.antt =====
-- Values of Python that come out of `json` and `jwt.decode`. A float is kept as its text.
use Prim.Native.String.{String}
use Prim.Native.String as Text
use mathlib.Core.Option.{Option, none, some}
use mathlib.Core.Bool.{Bool}
use mathlib.Core.List.{List, [], ◌∷◌}
use template_fastapi.Base.Tests.{◌==◌, string_eq, if◌then◌else◌}
use template_fastapi.Base.Int.{ℤ}

mutual
  pub data Json : Type 0 where
    null : Json
    bool : Bool → Json
    int : ℤ → Json
    float : String → Json
    str : String → Json
    arr : Elems → Json
    obj : Members → Json

  pub data Elems : Type 0 where
    nil : Elems
    cons : Json → Elems → Elems

  pub data Members : Type 0 where
    end : Members
    member : String → Json → Members → Members

-- `d.get(key)`
unfoldable pub get : String → Members → Option Json
get key end = none
get key (member k v rest) = if k == key then some v else get key rest

abbrev pub elems : Elems → List Json
elems nil = []
elems (cons v vs) = v ∷ elems vs

abbrev pub keys : Members → List Json
keys end = []
keys (member k v rest) = str k ∷ keys rest

-- A list of texts as a JSON array.
abbrev pub texts : List String → Elems
texts [] = nil
texts (s ∷ ss) = cons (str s) (texts ss)

-- The one-character texts that iterating over a text yields.
abbrev pub letters : String → List Json
letters Text.[] = []
letters (Text.◌∷◌ c s) = str (Text.◌∷◌ c Text.[]) ∷ letters s
