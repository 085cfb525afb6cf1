-- ===== src/Pager/Address.antt =====
-- The address keeps the page, the search and the order (components/PipelineList.js).
use pikoci.Base.{
  ℕ, ◌≡◌, refl, sym, inl, inr, String, true, false, Option, none, some, ltb, ◌==◌, ==_iff,
  text_equality, Bool-cases, arith, ◌≤◌,
}
use pikoci.Pager.{
  ListState, get_param, known_sort, or_blank, or_first, read_list_state, write_list_state,
}

-- A state of the page: a page number from 1 on, and an order that the page knows.
abbrev pub IsListState : ListState → Type 0
IsListState s = (1 ≤ s.page) × (known_sort (some s.sort) ≡ s.sort)

same_state :
    (s : ListState) {p : ℕ} {q o : String}
    → p ≡ s.page
    → q ≡ s.q
    → o ≡ s.sort
    → Path ListState (record { page = p; q = q; sort = o }) s
same_state s e f g = λ i. record { page = e i; q = f i; sort = g i }

-- If parsing a number that was printed gives the number, and parsing nothing gives none, then a
-- state with a page from one on and a known order is read back from the address it was written to.
pub read-write :
    (parse_int : Option String → Option ℕ) (show : ℕ → String) (s : ListState)
    → ((n : ℕ) → parse_int (some (show n)) ≡ some n)
    → parse_int none ≡ none
    → IsListState s
    → read_list_state parse_int (write_list_state show s) ≡ s
unfolding write_list_state read_list_state get_param known_sort or_blank or_first
read-write parse_int show s printed absent (positive, known) =
    let shown : ltb 1 s.page ≡ true → or_first (parse_int (some (show s.page))) ≡ s.page =
      λ a. rw (printed s.page) (ground (arith, a)) in
    let first : ltb 1 s.page ≡ false → or_first (parse_int none) ≡ s.page =
      λ a. rw absent (ground (arith, a, positive)) in
    elim (Bool-cases (ltb 1 s.page)) [
      | inl a ↦ elim (Bool-cases (s.q == "")) [
        | inl b ↦ elim (Bool-cases (s.sort == "name")) [
          | inl c ↦
              rw (a, b, c)
                (same_state s (shown a) (sym ((==_iff s.q "").0 b))
                  (sym ((==_iff s.sort "name").0 c)))
          | inr c ↦ rw (a, b, c) (same_state s (shown a) (sym ((==_iff s.q "").0 b)) known)
        ]
        | inr b ↦ elim (Bool-cases (s.sort == "name")) [
          | inl c ↦ rw (a, b, c) (same_state s (shown a) refl (sym ((==_iff s.sort "name").0 c)))
          | inr c ↦ rw (a, b, c) (same_state s (shown a) refl known)
        ]
      ]
      | inr a ↦ elim (Bool-cases (s.q == "")) [
        | inl b ↦ elim (Bool-cases (s.sort == "name")) [
          | inl c ↦
              rw (a, b, c)
                (same_state s (first a) (sym ((==_iff s.q "").0 b))
                  (sym ((==_iff s.sort "name").0 c)))
          | inr c ↦ rw (a, b, c) (same_state s (first a) (sym ((==_iff s.q "").0 b)) known)
        ]
        | inr b ↦ elim (Bool-cases (s.sort == "name")) [
          | inl c ↦ rw (a, b, c) (same_state s (first a) refl (sym ((==_iff s.sort "name").0 c)))
          | inr c ↦ rw (a, b, c) (same_state s (first a) refl known)
        ]
      ]
    ]
