-- ===== src/Prelude/Maps.antt =====
-- `Map` with strings for keys: an association list in the order of insertion.
use mathlib.Core.Path.{◌≡◌, refl}
use mathlib.Core.List.{List, [], ◌∷◌}
use mathlib.Core.Option.{Option, none, some}
use native.Mathlib.Omega.{arith}
use cere_worker.Prelude.Tests.{if◌then◌else◌}
use cere_worker.Prelude.Texts.{Text, text_eq, text_eq_iff}

module _ {ℓ} {A : Type ℓ} where
  unfoldable pub map_get : Text → List (Text × A) → Option A
  map_get key [] = none
  map_get key ((k, a) ∷ rest) = if text_eq k key then some a else map_get key rest

  unfoldable pub map_set : Text → A → List (Text × A) → List (Text × A)
  map_set key a [] = (key, a) ∷ []
  map_set key a ((k, b) ∷ rest) =
      if text_eq k key then (k, a) ∷ rest else (k, b) ∷ map_set key a rest

  unfoldable pub map_delete : Text → List (Text × A) → List (Text × A)
  map_delete key [] = []
  map_delete key ((k, b) ∷ rest) =
      if text_eq k key then map_delete key rest else (k, b) ∷ map_delete key rest

  pub map_get-map_set :
      (key other : Text) (a : A) (m : List (Text × A))
      → map_get other (map_set key a m) ≡ (if text_eq key other then some a else map_get other m)
  unfolding map_get map_set
  map_get-map_set key other a [] = refl
  map_get-map_set key other a ((k, b) ∷ rest) = ground (
    arith,
    text_eq_iff k key,
    text_eq_iff k other,
    text_eq_iff key other,
    map_get-map_set key other a rest,
  )

  pub map_get-map_delete :
      (key other : Text) (m : List (Text × A))
      → map_get other (map_delete key m) ≡ (if text_eq key other then none else map_get other m)
  unfolding map_get map_delete
  map_get-map_delete key other [] = ground arith
  map_get-map_delete key other ((k, b) ∷ rest) = ground (
    arith,
    text_eq_iff k key,
    text_eq_iff k other,
    text_eq_iff key other,
    map_get-map_delete key other rest,
  )
