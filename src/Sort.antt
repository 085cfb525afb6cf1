-- ===== src/Sort.antt =====
-- `Array.prototype.sort` with a comparator: a stable sort. `before x y` says that the comparator is
-- negative at `x` and `y`.
pub mod Laws
use pikoci.Base.{Bool, List, [], ◌∷◌, if◌then◌else◌}

module _ {ℓ} {A : Type ℓ} (before : A → A → Bool) where
  -- `x` stood before all of the list in the array that is sorted: it goes behind those that
  -- are before it only.
  unfoldable pub insert : A → List A → List A
  insert x [] = x ∷ []
  insert x (y ∷ ys) = if before y x then y ∷ insert x ys else x ∷ y ∷ ys

  unfoldable pub sort : List A → List A
  sort [] = []
  sort (x ∷ xs) = insert x (sort xs)
