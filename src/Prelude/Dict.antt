-- ===== src/Prelude/Dict.antt =====
-- `std::map<std::string, V>` as an association list in the order of its keys.
use mathlib.Core.Path.{◌≡◌, refl}
use mathlib.Core.List.{List, [], ◌∷◌}
use mathlib.Core.Option.{Option, none, some}
use native.Mathlib.Omega.{arith}
use c_cloud_storage.Prelude.Tests.{if◌then◌else◌}
use c_cloud_storage.Prelude.Text.{Bytes, eqb, eqb_iff, eqb_refl, lt_bytes}

abbrev pub Dict {ℓ} : Type ℓ → Type ℓ
Dict V = List (Bytes × V)

module _ {ℓ} {V : Type ℓ} where
  -- `find`, `at`, `count`
  unfoldable pub lookup : Bytes → Dict V → Option V
  unfolding eqb
  lookup k [] = none
  lookup k ((j, v) ∷ m) = if eqb j k then some v else lookup k m

  -- `m[k] = v`
  unfoldable pub insert : Bytes → V → Dict V → Dict V
  unfolding eqb lt_bytes
  insert k v [] = (k, v) ∷ []
  insert k v ((j, w) ∷ m) =
      if eqb j k
      then (k, v) ∷ m
      else if lt_bytes k j
      then (k, v) ∷ (j, w) ∷ m
      else (j, w) ∷ insert k v m

  -- A write is seen at its own key and at no other.
  pub lookup-insert :
      (k j : Bytes) (v : V) (m : Dict V)
      → lookup j (insert k v m) ≡ (if eqb k j then some v else lookup j m)
  unfolding lookup insert
  lookup-insert k j v [] = refl
  lookup-insert k j v ((i, w) ∷ m) =
      ground (arith, eqb_iff k j, eqb_iff i k, eqb_iff i j, lookup-insert k j v m)

  pub lookup-insert_self : (k : Bytes) (v : V) (m : Dict V) → lookup k (insert k v m) ≡ some v
  lookup-insert_self k v m = simp (lookup-insert, eqb_refl)

  -- `erase(k)`
  unfoldable pub erase : Bytes → Dict V → Dict V
  unfolding eqb
  erase k [] = []
  erase k ((j, w) ∷ m) = if eqb j k then m else (j, w) ∷ erase k m
