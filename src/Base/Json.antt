-- ===== src/Base/Json.antt =====
-- `serde_json::Value` with its three kinds of numbers, and the accessors that the code uses.
use Prim.Native.Nat.{ℕ}
use Prim.Native.String.{String}
use mathlib.Core.Bool.{Bool}
use mathlib.Core.Option.{Option, none, some}
use mathlib.Core.List.{List, [], ◌∷◌}
use text.Mathlib.Text.{◌==◌}
use decern.Base.Tests.{if◌then◌else◌}

-- `float` keeps the printed form: the code never computes with one. `negative n` is -(n + 1).
pub data Number : Type 0 where
  natural : ℕ → Number
  negative : ℕ → Number
  float : String → Number

mutual
  pub data Json : Type 0 where
    null : Json
    bool : Bool → Json
    number : Number → Json
    string : String → Json
    array : Elements → Json
    object : Members → Json

  pub data Elements : Type 0 where
    nil : Elements
    cons : Json → Elements → Elements

  pub data Members : Type 0 where
    end : Members
    member : String → Json → Members → Members

abbrev pub elements : Elements → List Json
elements nil = []
elements (cons j js) = j ∷ elements js

abbrev pub as_array : Json → Option (List Json)
as_array (array js) = some (elements js)
as_array _ = none

abbrev pub as_object : Json → Option Members
as_object (object m) = some m
as_object _ = none

abbrev pub as_str : Json → Option String
as_str (string s) = some s
as_str _ = none

abbrev pub as_bool : Json → Option Bool
as_bool (bool b) = some b
as_bool _ = none

-- The map's own `get`.
abbrev pub get_member : String → Members → Option Json
get_member k end = none
get_member k (member j v m) = if j == k then some v else get_member k m

-- `Value::get` with a text: a member of an object, and nothing of any other value.
abbrev pub get : String → Json → Option Json
get k (object m) = get_member k m
get k _ = none
