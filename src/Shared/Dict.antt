-- ===== src/Shared/Dict.antt =====
-- `std::map` as a list of entries: `find`, `insert` (which keeps an entry that is there), `erase`,
-- and the write through an iterator. Iteration is in the order of the list.
use mathlib.Core.Path.{◌≡◌, refl}
use mathlib.Core.Option.{Option, none, some}
use mathlib.Core.List.{List, [], ◌∷◌}
use native.Mathlib.Omega.{arith}
use shuchuang.Shared.Tests.{Key, ◌==◌, if◌then◌else◌}

abbrev pub Dict {ℓ κ} : Type ℓ → Type κ → Type (ℓ ⊔ κ)
Dict K V = List (K × V)

module _ {ℓ κ} {K : Type ℓ} {V : Type κ} ⦃e : Key K⦄ where
  unfoldable pub find : K → Dict K V → Option V
  find k [] = none
  find k ((j, v) ∷ m) = if j == k then some v else find k m

  unfoldable pub insert : K → V → Dict K V → Dict K V
  insert k v [] = (k, v) ∷ []
  insert k v ((j, w) ∷ m) = if j == k then (j, w) ∷ m else (j, w) ∷ insert k v m

  unfoldable pub erase : K → Dict K V → Dict K V
  erase k [] = []
  erase k ((j, v) ∷ m) = let rest = erase k m in if j == k then rest else (j, v) ∷ rest

  -- `it->second = v`, where `it` is the entry of `k`.
  unfoldable pub update : K → V → Dict K V → Dict K V
  update k v [] = []
  update k v ((j, w) ∷ m) =
      let rest = update k v m in if j == k then (j, v) ∷ rest else (j, w) ∷ rest

  pub find-insert :
      (k j : K) (v : V) (m : Dict K V)
      → find j (insert k v m)
        ≡ (if k == j then some (elim (find k m) [ none ↦ v | some w ↦ w ]) else find j m)
  unfolding find insert
  find-insert k j v [] = refl
  find-insert k j v ((i, w) ∷ m) =
      ground (arith, e.decides k j, e.decides i k, e.decides i j, find-insert k j v m)

  pub find-erase :
      (k j : K) (m : Dict K V) → find j (erase k m) ≡ (if k == j then none else find j m)
  unfolding find erase
  find-erase k j [] = ground arith
  find-erase k j ((i, w) ∷ m) =
      ground (arith, e.decides k j, e.decides i k, e.decides i j, find-erase k j m)

  pub find-update :
      (k j : K) (v : V) (m : Dict K V)
      → find j (update k v m)
        ≡ (if k == j then elim (find k m) [ none ↦ none | some w ↦ some v ] else find j m)
  unfolding find update
  find-update k j v [] = ground arith
  find-update k j v ((i, w) ∷ m) =
      ground (arith, e.decides k j, e.decides i k, e.decides i j, find-update k j v m)
