-- ===== src/Zoom/Numbers.antt =====
-- The numbers that the zoom of the graph counts with. JavaScript's are binary fractions that round,
-- and the laws below, which are all that the proofs use, hold of them but for NaN: they ask nothing of
-- sums, differences and products.
use pikoci.Base.{ℕ, Bool, true, false, not, ◌&&◌, ◌≡◌, if◌then◌else◌}

pub record Numbers : Type 1 where
  pub Number : Type 0
  pub ratio : ℕ → ℕ → Number  -- a literal: 115 / 100
  pub add : Number → Number → Number
  pub sub : Number → Number → Number
  pub mul : Number → Number → Number
  pub div : Number → Number → Number
  pub sqrt : Number → Number
  pub at_most : Number → Number → Bool  -- `a <= b`

pub record IsReal (n : Numbers) : Type 0 where
  pub div_one : (a : n.Number) → n.div a (n.ratio 1 1) ≡ a
  pub at_most_refl : (a : n.Number) → n.at_most a a ≡ true
  pub at_most_total : (a b : n.Number) → n.at_most a b ≡ false → n.at_most b a ≡ true
  pub quarter_one : n.at_most (n.ratio 25 100) (n.ratio 1 1) ≡ true
  pub one_four : n.at_most (n.ratio 1 1) (n.ratio 4 1) ≡ true
  pub quarter_four : n.at_most (n.ratio 25 100) (n.ratio 4 1) ≡ true

module _ (n : Numbers) where
  unfoldable pub less : n.Number → n.Number → Bool
  less a b = not (n.at_most b a)

  -- `Math.min` and `Math.max`
  unfoldable pub min_of : n.Number → n.Number → n.Number
  min_of a b = if n.at_most a b then a else b

  unfoldable pub max_of : n.Number → n.Number → n.Number
  max_of a b = if n.at_most a b then b else a

  unfoldable pub zero_of : n.Number
  zero_of = n.ratio 0 1

  -- `Math.abs`
  unfoldable pub abs_of : n.Number → n.Number
  abs_of a = if n.at_most zero_of a then a else n.sub zero_of a

  -- `!a`, for a number
  unfoldable pub is_falsy : n.Number → Bool
  is_falsy a = n.at_most a zero_of && n.at_most zero_of a
