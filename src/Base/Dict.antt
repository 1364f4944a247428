-- ===== src/Base/Dict.antt =====
-- Texts as lists of code points, and Python's dict with text keys, as the list of its items in insertion
-- order.
use Prim.Native.Char.{code}
use Prim.Native.String.{String}
use Prim.Native.Nat.{ℕ}
use mathlib.Core.Bool.{Bool, true, false, ◌&&◌}
use mathlib.Core.List.{List, [], ◌∷◌}
use mathlib.Core.Option.{Option, none, some}
use local_mind.Base.Tests.{◌==◌, if◌then◌else◌}

abbrev pub Text : Type 0
Text = List ℕ

abbrev pub codes : String → Text
codes String.[] = []
codes (String.◌∷◌ c s) = code c ∷ codes s

abbrev pub eq_text : Text → Text → Bool
eq_text [] [] = true
eq_text [] (d ∷ t) = false
eq_text (c ∷ s) [] = false
eq_text (c ∷ s) (d ∷ t) = c == d && eq_text s t

-- `s.startswith(t)`
abbrev pub starts_with : Text → Text → Bool
starts_with s [] = true
starts_with [] (d ∷ t) = false
starts_with (c ∷ s) (d ∷ t) = c == d && starts_with s t

-- `s.split(":")[0]`
abbrev pub before_colon : Text → Text
before_colon [] = []
before_colon (c ∷ t) = let rest = c ∷ before_colon t in if c == b':' then [] else rest

module _ {V : Type 0} where
  abbrev pub find : Text → List (Text × V) → Option V
  find key [] = none
  find key ((k, v) ∷ items) = if eq_text k key then some v else find key items

  -- `d[key] = value`
  abbrev pub assign : Text → V → List (Text × V) → List (Text × V)
  assign key value [] = (key, value) ∷ []
  assign key value ((k, v) ∷ items) =
      let rest = (k, v) ∷ assign key value items in
      if eq_text k key then (k, value) ∷ items else rest

  -- `del d[key]`
  abbrev pub delete_key : Text → List (Text × V) → List (Text × V)
  delete_key key [] = []
  delete_key key ((k, v) ∷ items) =
      let rest = (k, v) ∷ delete_key key items in if eq_text k key then items else rest

  abbrev pub delete_all : List Text → List (Text × V) → List (Text × V)
  delete_all [] items = items
  delete_all (k ∷ ks) items = delete_all ks (delete_key k items)

  -- The first item whose key starts with a prefix.
  abbrev pub find_prefix : Text → List (Text × V) → Option (Text × V)
  find_prefix prefix [] = none
  find_prefix prefix ((k, v) ∷ items) =
      if starts_with k prefix then some (k, v) else find_prefix prefix items
