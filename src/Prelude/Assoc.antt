-- ===== src/Prelude/Assoc.antt =====
-- A JavaScript object or `Map` with text keys: a write to an old key stays at its place, a new
-- key goes to the end. (Keys that spell an array index, which an object lists first, do not occur.)
use condui.Prelude.Tests.{if◌then◌else◌}
use Prim.Native.String.{String}
use mathlib.Core.Path.{◌≡◌, refl}
use mathlib.Core.Option.{Option, none, some}
use mathlib.Core.List.{List, [], ◌∷◌}
use native.Mathlib.Omega.{arith}
use text.Mathlib.Text.{◌==◌}
use text.Mathlib.TextEquality.{eq_iff}

abbrev pub Dict {ℓ} : Type ℓ → Type ℓ
Dict V = List (String × V)

module _ {ℓ} {V : Type ℓ} where
  -- `m[k]`
  unfoldable pub lookup : String → Dict V → Option V
  lookup k [] = none
  lookup k ((j, v) ∷ m) = if j == k then some v else lookup k m

  -- `m[k] = v`
  unfoldable pub insert : String → V → Dict V → Dict V
  insert k v [] = (k, v) ∷ []
  insert k v ((j, w) ∷ m) = let rest = insert k v m in if j == k then (j, v) ∷ m else (j, w) ∷ rest

  -- `delete m[k]`
  unfoldable pub erase : String → Dict V → Dict V
  erase k [] = []
  erase k ((j, w) ∷ m) = let rest = erase k m in if j == k then rest else (j, w) ∷ rest

  pub lookup-insert :
      (k i : String) (v : V) (m : Dict V)
      → lookup i (insert k v m) ≡ (if k == i then some v else lookup i m)
  unfolding lookup insert
  lookup-insert k i v [] = refl
  lookup-insert k i v ((j, w) ∷ m) =
      ground (arith, lookup-insert k i v m, eq_iff j k, eq_iff j i, eq_iff k i)

  pub lookup-erase :
      (k i : String) (m : Dict V) → lookup i (erase k m) ≡ (if k == i then none else lookup i m)
  unfolding lookup erase
  lookup-erase k i [] = ground arith
  lookup-erase k i ((j, w) ∷ m) =
      ground (arith, lookup-erase k i m, eq_iff j k, eq_iff j i, eq_iff k i)

pub lookup-empty {ℓ} : {V : Type ℓ} (k : String) → lookup {V = V} k [] ≡ none
unfolding lookup
lookup-empty k = refl

pub ruleset dict_laws = (lookup-insert, lookup-erase, lookup-empty)
