-- ===== src/Builds/Numbers.antt =====
-- The order of the builds by their numbers, which the comparator of `sortBuilds` is meant to give.
use mathlib.Core.List.{Perm}
use pikoci.Base.{
  ℕ, ◌≤◌, ◌<◌, String, false, some, List, [], ◌∷◌, ◌≡◌, ◌≢◌, ◌⊎◌, inl, inr, refl, ap, ◌∙◌, sym,
  arith, All, map, number_equality, text_equality, ◌==◌, ==_iff, Bool-cases,
}
use pikoci.Text.{Chars, codes, split, to_number}
use pikoci.Sort.Laws.{IsOrdered}
use pikoci.Builds.{Build, number_text, key_of, key_of_parts, key_before, build_before, sort_builds}
use pikoci.Builds.Order.{IsNumbered, sort_builds_lem}

-- The field `number` is a number, or two with a dot between them.
pub data HasNumber (b : Build) : ℕ → ℕ → Type 0 where
  whole :
      (s : String) (p : Chars) (major : ℕ)
      → b.number ≡ some s
      → s ≢ ""
      → split b'.' (codes s) ≡ p ∷ []
      → to_number p ≡ some major
      → HasNumber b major 0
  dotted :
      (s : String) (p q : Chars) (rest : List Chars) (major minor : ℕ)
      → b.number ≡ some s
      → s ≢ ""
      → split b'.' (codes s) ≡ p ∷ q ∷ rest
      → to_number p ≡ some major
      → to_number q ≡ some minor
      → HasNumber b major minor

abbrev pub IsVersioned : Build → Type 0
IsVersioned b = (major : ℕ) × (minor : ℕ) × HasNumber b major minor

-- The number of the second is not higher: its first part is lower, or is the same and its second
-- part is not higher.
abbrev pub IsNotHigher : Build → Build → Type 0
IsNotHigher a b =
    (m n m' n' : ℕ) → HasNumber a m n → HasNumber b m' n' → (m' < m) ⊎ ((m' ≡ m) × (n' ≤ n))

abbrev pub IsFalling : List Build → Type 0
IsFalling [] = Unit
IsFalling (b ∷ builds) = All (IsNotHigher b) builds × IsFalling builds

given_text : (s : String) → s ≢ "" → number_text (some s) ≡ codes s
unfolding number_text
given_text s ne = elim (Bool-cases (s == "")) [
  | inl e ↦ absurd (ne ((==_iff s "").0 e))
  | inr e ↦ rw e refl
]

HasNumber-key_of :
    (b : Build) (m n : ℕ) → HasNumber b m n → key_of b ≡ record { major = some m; minor = n }
unfolding key_of key_of_parts
HasNumber-key_of b m _ (whole s p major e ne f g) =
    ap (λ o. key_of_parts (map to_number (split b'.' (number_text o)))) e
    ∙ (ap (λ t. key_of_parts (map to_number (split b'.' t))) (given_text s ne)
        ∙ (ap (λ ps. key_of_parts (map to_number ps)) f ∙ ap (λ o. key_of_parts (o ∷ [])) g))
HasNumber-key_of b m n (dotted s p q rest major minor e ne f g h) =
    ap (λ o. key_of_parts (map to_number (split b'.' (number_text o)))) e
    ∙ (ap (λ t. key_of_parts (map to_number (split b'.' t))) (given_text s ne)
        ∙ (ap (λ ps. key_of_parts (map to_number ps)) f
            ∙ (ap (λ o. key_of_parts (o ∷ to_number q ∷ map to_number rest)) g
                ∙ ap (λ o. key_of_parts (some major ∷ o ∷ map to_number rest)) h)))

IsVersioned-IsNumbered : (b : Build) → IsVersioned b → IsNumbered b
IsVersioned-IsNumbered b (m, n, h) = λ e. let k = ap (λ c. c.major) (HasNumber-key_of b m n h) in cc

keys_in_order :
    (m n m' n' : ℕ)
    → key_before (record { major = some m'; minor = n' }) (record { major = some m; minor = n })
      ≡ false
    → (m' < m) ⊎ ((m' ≡ m) × (n' ≤ n))
unfolding key_before
keys_in_order m n m' n' h = elim (Bool-cases (m == m')) [
  | inl e ↦ inr (sym ((==_iff m m').0 e), ground (arith, h, e))
  | inr e ↦ inl (ground (arith, h, e, ==_iff m m'))
]

before-IsNotHigher : (a b : Build) → build_before b a ≡ false → IsNotHigher a b
unfolding build_before
before-IsNotHigher a b h m n m' n' p q = keys_in_order m n m' n' (
    sym (
      ap (λ k. key_before k (key_of a)) (HasNumber-key_of b m' n' q)
      ∙ ap (key_before (record { major = some m'; minor = n' })) (HasNumber-key_of a m n p))
    ∙ h)

All-IsNotHigher :
    (a : Build) (bs : List Build) → All (λ b. build_before b a ≡ false) bs → All (IsNotHigher a) bs
All-IsNotHigher a [] h = tt
All-IsNotHigher a (b ∷ bs) h = (before-IsNotHigher a b h.0, All-IsNotHigher a bs h.1)

ordered-IsFalling : (bs : List Build) → IsOrdered build_before bs → IsFalling bs
ordered-IsFalling [] h = tt
ordered-IsFalling (b ∷ bs) h = (All-IsNotHigher b bs h.0, ordered-IsFalling bs h.1)

All-IsNumbered : (bs : List Build) → All IsVersioned bs → All IsNumbered bs
All-IsNumbered [] h = tt
All-IsNumbered (b ∷ bs) h = (IsVersioned-IsNumbered b h.0, All-IsNumbered bs h.1)

-- If the field `number` of each build is a number or two with a dot between them, then the sort
-- drops and adds nothing, and no build has a higher number than one in front of it, by the first
-- part and then by the second.
pub sort_builds-IsFalling :
    (builds : List Build)
    → All IsVersioned builds
    → Perm (sort_builds builds) builds × IsFalling (sort_builds builds)
sort_builds-IsFalling builds h =
    let (p, o) = sort_builds_lem builds (All-IsNumbered builds h) in
    (p, ordered-IsFalling (sort_builds builds) o)
