-- ===== src/Prelude/Maps.antt =====
-- A `Map` with text keys, as the list of its entries in insertion order.
use Prim.Native.String.{String}
use mathlib.Core.Path.{◌≡◌, refl, ◌∙◌, subst}
use mathlib.Core.Logic.{inl, inr}
use mathlib.Core.Bool.{Bool}
use mathlib.Core.Option.{Option, none, some}
use mathlib.Core.List.{List, [], ◌∷◌}
use native.Mathlib.Omega.{arith}
use text.Mathlib.Text.{◌==◌ as str_eq}
use text.Mathlib.TextEquality.{eq_iff}
use critalarm_server.Prelude.Tests.{if◌then◌else◌, Bool-cases}
use critalarm_server.Prelude.Tables.{delete_where}

module _ {ℓ} {V : Type ℓ} where
  unfoldable pub map_get : String → List (String × V) → Option V
  map_get k [] = none
  map_get k ((j, v) ∷ m) = if str_eq j k then some v else map_get k m

  unfoldable pub map_set : String → V → List (String × V) → List (String × V)
  map_set k v [] = (k, v) ∷ []
  map_set k v ((j, w) ∷ m) = if str_eq j k then (k, v) ∷ m else (j, w) ∷ map_set k v m

  pub map_get-set :
      (j k : String) (v : V) (m : List (String × V))
      → map_get j (map_set k v m) ≡ (if str_eq k j then some v else map_get j m)
  unfolding map_get map_set
  map_get-set j k v [] = refl
  map_get-set j k v ((i, w) ∷ m) =
      ground (arith, eq_iff k j, eq_iff i k, eq_iff i j, map_get-set j k v m)

  -- No key stands in the list twice.
  abbrev pub HasUniqueKeys : List (String × V) → Type ℓ
  HasUniqueKeys [] = Unit
  HasUniqueKeys ((k, v) ∷ m) = (map_get k m ≡ none) × HasUniqueKeys m

  pub map_set-HasUniqueKeys :
      (k : String) (v : V) (m : List (String × V)) → HasUniqueKeys m → HasUniqueKeys (map_set k v m)
  unfolding map_set map_get
  map_set-HasUniqueKeys k v [] h = (refl, tt)
  map_set-HasUniqueKeys k v ((j, w) ∷ m) h = elim (Bool-cases (str_eq j k)) [
    | inl e ↦ rw e (subst (λ i. map_get i m ≡ none) ((eq_iff j k).0 e) h.0, h.1)
    | inr e ↦ rw e (
      map_get-set j k v m ∙ ground (arith, h.0, e, eq_iff j k, eq_iff k j),
      map_set-HasUniqueKeys k v m h.1,
    )
  ]

  pub map_get-delete_where :
      (p : String × V → Bool) (k : String) (m : List (String × V))
      → map_get k m ≡ none
      → map_get k (delete_where p m) ≡ none
  unfolding map_get delete_where
  map_get-delete_where p k [] h = refl
  map_get-delete_where p k ((j, v) ∷ m) h = ground (arith, map_get-delete_where p k m)

  pub delete_where-HasUniqueKeys :
      (p : String × V → Bool) (m : List (String × V))
      → HasUniqueKeys m
      → HasUniqueKeys (delete_where p m)
  unfolding delete_where
  delete_where-HasUniqueKeys p [] h = tt
  delete_where-HasUniqueKeys p ((j, v) ∷ m) h = elim (Bool-cases (p (j, v))) [
    | inl e ↦ rw e (delete_where-HasUniqueKeys p m h.1)
    | inr e ↦ rw e (map_get-delete_where p j m h.0, delete_where-HasUniqueKeys p m h.1)
  ]
