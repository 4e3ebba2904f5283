-- ===== src/Base/Maps.antt =====
-- `std::map<std::string, V>` as an association list in the order of its keys.
use Prim.Native.Nat.{ℕ, suc, ◌+◌, ◌≤◌}
use mathlib.Core.Path.{◌≡◌, refl, ap, ◌∙◌}
use mathlib.Core.Logic.{inl, inr}
use mathlib.Core.Option.{Option, none, some}
use mathlib.Core.List.{List, [], ◌∷◌}
use native.Mathlib.Omega.{arith}
use xgc2_adapter_runtime_cli.Base.Tests.{if◌then◌else◌, Bool-cases}
use xgc2_adapter_runtime_cli.Base.Strings.{Bytes, same, same_iff, same_refl, before}

abbrev pub Map {ℓ} : Type ℓ → Type ℓ
Map V = List (Bytes × V)

module _ {ℓ} {V : Type ℓ} where
  -- m.find(k)
  unfoldable pub find : Bytes → Map V → Option V
  find k [] = none
  find k ((j, v) ∷ m) = if same j k then some v else find k m

  -- m.erase(k)
  unfoldable pub erase : Bytes → Map V → Map V
  erase k [] = []
  erase k ((j, v) ∷ m) = let rest = erase k m in if same j k then rest else (j, v) ∷ rest

  -- A key that is not there goes before the first greater one.
  place : Bytes → V → Map V → Map V
  place k v [] = (k, v) ∷ []
  place k v ((j, w) ∷ m) =
      let rest = place k v m in if before k j then (k, v) ∷ (j, w) ∷ m else (j, w) ∷ rest

  -- m[k] = v
  unfoldable pub insert : Bytes → V → Map V → Map V
  unfolding place
  insert k v m = place k v (erase k m)

  unfoldable pub sum_map : (V → ℕ) → Map V → ℕ
  sum_map f [] = 0
  sum_map f ((k, v) ∷ m) = f v + sum_map f m

  unfoldable pub size : Map V → ℕ
  size [] = 0
  size (e ∷ m) = suc (size m)

  pub find-erase :
      (k j : Bytes) (m : Map V) → find j (erase k m) ≡ (if same k j then none else find j m)
  unfolding find erase
  find-erase k j [] = ground arith
  find-erase k j ((i, w) ∷ m) =
      ground (arith, same_iff k j, same_iff i k, same_iff i j, find-erase k j m)

  find-place :
      (k j : Bytes) (v : V) (m : Map V)
      → find k m ≡ none
      → find j (place k v m) ≡ (if same k j then some v else find j m)
  unfolding find place
  find-place k j v [] n = refl
  find-place k j v ((i, w) ∷ m) n =
      ground (arith, same_iff k j, same_iff i k, same_iff i j, find-place k j v m)

  pub find-erase_self : (k : Bytes) (m : Map V) → find k (erase k m) ≡ none
  find-erase_self k m = rw (find-erase k k m, same_refl k)

  pub find-insert :
      (k j : Bytes) (v : V) (m : Map V)
      → find j (insert k v m) ≡ (if same k j then some v else find j m)
  unfolding insert
  find-insert k j v m =
      ground (arith, find-place k j v (erase k m), find-erase_self k m, find-erase k j m)

  -- Every key stands once.
  abbrev pub Distinct : Map V → Type ℓ
  Distinct [] = Unit
  Distinct ((k, v) ∷ m) = (find k m ≡ none) × Distinct m

  pub erase-Distinct : (k : Bytes) (m : Map V) → Distinct m → Distinct (erase k m)
  unfolding erase
  erase-Distinct k [] d = d
  erase-Distinct k ((j, v) ∷ m) d = elim (Bool-cases (same j k)) [
    | inl e ↦ rw e (erase-Distinct k m d.1)
    | inr e ↦ rw e (ground (arith, find-erase k j m, d.0), erase-Distinct k m d.1)
  ]

  place-Distinct :
      (k : Bytes) (v : V) (m : Map V) → find k m ≡ none → Distinct m → Distinct (place k v m)
  unfolding find place
  place-Distinct k v [] n d = (refl, tt)
  place-Distinct k v ((j, w) ∷ m) n d = elim (Bool-cases (before k j)) [
    | inl e ↦ rw e (n, d)
    | inr e ↦ rw e (
      ground (arith, same_iff j k, same_iff k j, find-place k j v m, d.0),
      place-Distinct k v m (ground arith) d.1,
    )
  ]

  pub insert-Distinct : (k : Bytes) (v : V) (m : Map V) → Distinct m → Distinct (insert k v m)
  unfolding insert
  insert-Distinct k v m d =
      place-Distinct k v (erase k m) (find-erase_self k m) (erase-Distinct k m d)

  pub erase_absent : (k : Bytes) (m : Map V) → find k m ≡ none → erase k m ≡ m
  unfolding find erase
  erase_absent k [] n = refl
  erase_absent k ((j, v) ∷ m) n = ground (arith, erase_absent k m)

  -- The entry that `erase` takes out is the only one of its key.
  pub erase_present :
      (f : V → ℕ) (k : Bytes) (v : V) (m : Map V)
      → Distinct m
      → find k m ≡ some v
      → (size m ≡ suc (size (erase k m))) × (sum_map f m ≡ f v + sum_map f (erase k m))
  unfolding find erase size sum_map
  erase_present f k v [] d e = cc
  erase_present f k v ((j, w) ∷ m) d e =
      ground (arith, same_iff j k, erase_absent k m, erase_present f k v m d.1)

  pub size-erase-le : (k : Bytes) (m : Map V) → size (erase k m) ≤ size m
  unfolding erase size
  size-erase-le k [] = omega arith
  size-erase-le k ((j, v) ∷ m) = ground (arith, size-erase-le k m)

  size-place : (k : Bytes) (v : V) (m : Map V) → size (place k v m) ≡ suc (size m)
  unfolding place size
  size-place k v [] = refl
  size-place k v ((j, w) ∷ m) = ground (arith, size-place k v m)

  sum_map-place :
      (f : V → ℕ) (k : Bytes) (v : V) (m : Map V) → sum_map f (place k v m) ≡ f v + sum_map f m
  unfolding place sum_map
  sum_map-place f k v [] = refl
  sum_map-place f k v ((j, w) ∷ m) = ground (arith, sum_map-place f k v m)

  pub size-insert : (k : Bytes) (v : V) (m : Map V) → size (insert k v m) ≡ suc (size (erase k m))
  unfolding insert
  size-insert k v m = size-place k v (erase k m)

  pub sum_map-insert :
      (f : V → ℕ) (k : Bytes) (v : V) (m : Map V)
      → sum_map f (insert k v m) ≡ f v + sum_map f (erase k m)
  unfolding insert
  sum_map-insert f k v m = sum_map-place f k v (erase k m)

  -- A new key adds one entry, and its value to the sum.
  pub insert_fresh :
      (f : V → ℕ) (k : Bytes) (v : V) (m : Map V)
      → find k m ≡ none
      → (size (insert k v m) ≡ suc (size m)) × (sum_map f (insert k v m) ≡ f v + sum_map f m)
  insert_fresh f k v m n = (
    size-insert k v m ∙ ap (λ t. suc (size t)) (erase_absent k m n),
    sum_map-insert f k v m ∙ ap (λ t. f v + sum_map f t) (erase_absent k m n),
  )
