-- ===== src/Common/Maps.antt =====
-- Go's maps with texts as keys, as association lists: value, assignment and delete.
use Prim.Native.String.{String}
use mathlib.Core.Path.{◌≡◌}
use mathlib.Core.Option.{Option, none, some}
use mathlib.Core.List.{List, [], ◌∷◌}
use text.Mathlib.Text.{◌==◌ as str_eq}
use text.Mathlib.TextEquality.{eq_iff}
use native.Mathlib.Omega.{arith}
use auto_repair.Common.Tests.{if◌then◌else◌}

module _ {A : Type 0} where
  unfoldable pub lookup : String → List (String × A) → Option A
  lookup key [] = none
  lookup key ((k, v) ∷ m) = let rest = lookup key m in if str_eq k key then some v else rest

  unfoldable pub remove : String → List (String × A) → List (String × A)
  remove key [] = []
  remove key ((k, v) ∷ m) = let rest = remove key m in if str_eq k key then rest else (k, v) ∷ rest

  unfoldable pub assign : String → A → List (String × A) → List (String × A)
  unfolding remove
  assign key v m = (key, v) ∷ remove key m

  pub lookup-remove :
      (k key : String) (m : List (String × A))
      → lookup k (remove key m) ≡ (if str_eq key k then none else lookup k m)
  unfolding lookup remove
  lookup-remove k key [] = ground arith
  lookup-remove k key ((j, v) ∷ m) =
      ground (arith, eq_iff j key, eq_iff j k, eq_iff key k, lookup-remove k key m)

  pub lookup-assign :
      (k key : String) (v : A) (m : List (String × A))
      → lookup k (assign key v m) ≡ (if str_eq key k then some v else lookup k m)
  unfolding lookup assign
  lookup-assign k key v m = ground (arith, lookup-remove k key m)
