-- ===== src/Base/Comparison.antt =====
-- `===` on numbers and strings as an interface, and membership in an array by it.
use Prim.Native.Nat.{ℕ}
use Prim.Native.String.{String}
use mathlib.Core.Path.{◌≡◌, refl, subst}
use mathlib.Core.Logic.{◌↔◌, inl, inr}
use mathlib.Core.Bool.{Bool, true, false, ◌||◌, ◌&&◌}
use mathlib.Core.List.{List, [], ◌∷◌, ◌++◌}
use native.Mathlib.Omega.{arith}
use text.Mathlib.Text.{◌==◌ as same_text}
use text.Mathlib.TextEquality.{eq_iff}
use pikoci.Base.Tests.{same_number, same_number_iff, Bool-cases}
use pikoci.Base.Lists.{filter, All}

-- `===` as a Boolean function, with what it decides.
pub record Equality {ℓ} (T : Type ℓ) : Type ℓ where
  pub same : T → T → Bool
  pub same_iff : (x y : T) → (same x y ≡ true) ↔ (x ≡ y)

instance abbrev pub text_equality : Equality String
text_equality = record { same = same_text; same_iff = eq_iff }

instance abbrev pub number_equality : Equality ℕ
number_equality = record { same = same_number; same_iff = same_number_iff }

infix 50 ◌==◌
abbrev pub ◌==◌ {ℓ} : {T : Type ℓ} ⦃equality : Equality T⦄ → T → T → Bool
◌==◌ ⦃equality⦄ = equality.same

module _ {ℓ} {A : Type ℓ} ⦃e : Equality A⦄ where
  pub ==_iff : (a b : A) → ((a == b) ≡ true) ↔ (a ≡ b)
  ==_iff a b = e.same_iff a b

  pub ==_refl : (a : A) → (a == a) ≡ true
  ==_refl a = (e.same_iff a a).1 refl

  -- `xs.includes(a)`, `xs.indexOf(a) >= 0`
  unfoldable pub contains : List A → A → Bool
  contains [] a = false
  contains (x ∷ xs) a = x == a || contains xs a

  pub contains-append :
      (xs ys : List A) (a : A) → contains (xs ++ ys) a ≡ (contains xs a || contains ys a)
  unfolding contains
  contains-append [] ys a = refl
  contains-append (x ∷ xs) ys a = ground (arith, contains-append xs ys a)

  pub contains-concat :
      (xs : List A) (b a : A) → contains (xs ++ b ∷ []) a ≡ (contains xs a || b == a)
  unfolding contains
  contains-concat [] b a = ground arith
  contains-concat (x ∷ xs) b a = ground (arith, contains-concat xs b a)

  -- No element occurs twice.
  abbrev pub IsDistinct : List A → Type 0
  IsDistinct [] = Unit
  IsDistinct (x ∷ xs) = (contains xs x ≡ false) × IsDistinct xs

  pub IsDistinct-concat :
      (xs : List A) (b : A) → IsDistinct xs → contains xs b ≡ false → IsDistinct (xs ++ b ∷ [])
  unfolding contains
  IsDistinct-concat [] b d h = (refl, tt)
  IsDistinct-concat (x ∷ xs) b d h = (
    ground (arith, contains-concat xs b x, e.same_iff x b, e.same_iff b x),
    IsDistinct-concat xs b d.1 (ground arith),
  )

  pub contains-filter :
      (p : A → Bool) (xs : List A) (a : A) → contains (filter p xs) a ≡ (contains xs a && p a)
  unfolding contains
  contains-filter p [] a = refl
  contains-filter p (x ∷ xs) a = elim (Bool-cases (x == a)) [
    | inl k ↦ rw ((e.same_iff x a).0 k) (ground (arith, contains-filter p xs a, ==_refl a))
    | inr n ↦ ground (arith, contains-filter p xs a)
  ]

  pub All_of_contains {κ} :
      (P : A → Type κ) (xs : List A) (a : A) → All P xs → contains xs a ≡ true → P a
  unfolding contains
  All_of_contains P [] a h c = cc
  All_of_contains P (x ∷ xs) a h c = elim (Bool-cases (x == a)) [
    | inl k ↦ subst P ((e.same_iff x a).0 k) h.0
    | inr k ↦ All_of_contains P xs a h.1 (ground arith)
  ]

  -- An array without elements contains nothing, and no other does.
  pub contains_nothing : (xs : List A) → ((a : A) → contains xs a ≡ false) → xs ≡ []
  unfolding contains
  contains_nothing [] h = refl
  contains_nothing (x ∷ xs) h = ground (arith, h x, ==_refl x)
