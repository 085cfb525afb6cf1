-- ===== src/Pager/Items.antt =====
-- Which numbers the pager shows, and where the gaps stand (components/PipelineList.js).
use pikoci.Base.{
  ◌≤◌, ◌↔◌, ◌⊎◌, ℕ, zero, suc, ◌+◌, ◌-◌, ◌<◌, ◌≡◌, sym, ap, ◌∙◌, inl, inr, Bool, true, false, ◌&&◌,
  ◌||◌, List, [], ◌∷◌, ltb, leb, contains, number_equality, ◌==◌, ==_iff, Bool-cases, arith,
}
use pikoci.Pager.{Item, gap, number, is_shown, items_from, items}

unfoldable pub numbers : List Item → List ℕ
numbers [] = []
numbers (gap ∷ rest) = numbers rest
numbers (number n current ∷ rest) = n ∷ numbers rest

-- Behind `last`, a number stands at once if it is the next one, and behind a gap otherwise. The flag
-- says that a gap was read.
unfoldable pub IsSpaced : Bool → ℕ → List Item → Type 0
IsSpaced true last [] = ⊥
IsSpaced true last (gap ∷ rest) = ⊥
IsSpaced true last (number n current ∷ rest) = (suc last < n) × IsSpaced false n rest
IsSpaced false last [] = Unit
IsSpaced false last (gap ∷ rest) = IsSpaced true last rest
IsSpaced false last (number n current ∷ rest) = (n ≡ suc last) × IsSpaced false n rest

items_from-IsSpaced :
    (page count left n last : ℕ)
    → last < n
    → IsSpaced false last (items_from page count left n last)
unfolding items_from IsSpaced
items_from-IsSpaced page count zero n last h = tt
items_from-IsSpaced page count (suc left) n last h = elim (Bool-cases (is_shown page count n)) [
  | inl e ↦ elim (Bool-cases (ltb 1 (n - last))) [
    | inl k ↦
        rw (e, k)
          (ground (arith, k, h), items_from-IsSpaced page count left (suc n) n (omega arith))
    | inr k ↦
        rw (e, k)
          (ground (arith, k, h), items_from-IsSpaced page count left (suc n) n (omega arith))
  ]
  | inr e ↦ rw e (items_from-IsSpaced page count left (suc n) last (omega (arith, h)))
]

-- Whether `k` is shown from the round of `n` on, against the rounds after it.
abbrev after : ℕ → ℕ → ℕ → ℕ → ℕ → Bool
after page count left n k = leb n k && (ltb k (n + left) && is_shown page count k)

after_shown :
    (page count left n k : ℕ)
    → is_shown page count n ≡ true
    → (n == k || after page count left (suc n) k) ≡ after page count (suc left) n k
after_shown page count left n k e = elim (Bool-cases (n == k)) [
  | inl m ↦ ground (arith, m, ap (is_shown page count) (sym ((==_iff n k).0 m)) ∙ e)
  | inr m ↦ ground (arith, m)
]

after_skipped :
    (page count left n k : ℕ)
    → is_shown page count n ≡ false
    → after page count left (suc n) k ≡ after page count (suc left) n k
after_skipped page count left n k e = elim (Bool-cases (n == k)) [
  | inl m ↦ ground (arith, m, ap (is_shown page count) (sym ((==_iff n k).0 m)) ∙ e)
  | inr m ↦ ground (arith, m)
]

numbers_from :
    (page count left n last k : ℕ)
    → contains (numbers (items_from page count left n last)) k
      ≡ (leb n k && (ltb k (n + left) && is_shown page count k))
unfolding items_from numbers contains
numbers_from page count zero n last k = ground arith
numbers_from page count (suc left) n last k = elim (Bool-cases (is_shown page count n)) [
  | inl e ↦ elim (Bool-cases (ltb 1 (n - last))) [
    | inl m ↦
        rw (e, m)
          (ap (λ b. n == k || b) (numbers_from page count left (suc n) n k)
            ∙ after_shown page count left n k e)
    | inr m ↦
        rw (e, m)
          (ap (λ b. n == k || b) (numbers_from page count left (suc n) n k)
            ∙ after_shown page count left n k e)
  ]
  | inr e ↦ rw e (numbers_from page count left (suc n) last k ∙ after_skipped page count left n k e)
]

-- Why the pager shows the page `k`.
abbrev pub IsWorthShowing : ℕ → ℕ → ℕ → Type 0
IsWorthShowing page count k = (k ≡ 1) ⊎ ((k ≡ count) ⊎ ((k ≤ page + 1) × (page ≤ k + 1)))

is_shown_iff : (page count k : ℕ) → (is_shown page count k ≡ true) ↔ IsWorthShowing page count k
unfolding is_shown
is_shown_iff page count k = ground arith

items-numbers :
    (page count k : ℕ)
    → contains (numbers (items page count)) k ≡ (leb 1 k && (leb k count && is_shown page count k))
unfolding items
items-numbers page count k = numbers_from page count count 1 0 k ∙ ground arith

-- The pager shows a number exactly if it is a page and is the first, the last, the current page or
-- a neighbour of it.
items_shown_iff :
    (page count k : ℕ)
    → (contains (numbers (items page count)) k ≡ true)
      ↔ ((1 ≤ k) × ((k ≤ count) × IsWorthShowing page count k))
items_shown_iff page count k = ground (arith, items-numbers page count k, is_shown_iff page count k)

-- A number of the pager stands directly behind the one before it, nought at the start, exactly if
-- it is the next one, and behind one gap otherwise; no gap stands at the end or beside another.
items-IsSpaced : (page count : ℕ) → IsSpaced false 0 (items page count)
unfolding items
items-IsSpaced page count = items_from-IsSpaced page count count 1 0 (omega arith)
