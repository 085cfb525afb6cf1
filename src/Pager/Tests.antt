-- ===== src/Pager/Tests.antt =====
-- Runs of the pager and of its address.
use pikoci.Base.{
  ℕ, zero, suc, ap, String, true, false, ◌≡◌, refl, Option, none, some, [], ◌∷◌, arith,
  number_equality,
}
use pikoci.Pager.{
  gap, number, items, items_from, is_shown, page_count, ListState, read_list_state,
  write_list_state, known_sort,
}
use pikoci.Pager.Address.{read-write}

-- Pages 1 … 4 [5] 6 … 9.
items_of_nine :
    items 5 9
    ≡ number 1 false
      ∷ gap
      ∷ number 4 false
      ∷ number 5 true
      ∷ number 6 false
      ∷ gap
      ∷ number 9 false
      ∷ []
unfolding items items_from is_shown
items_of_nine = refl

pages_of_none : page_count 0 ≡ 1
unfolding page_count
pages_of_none = refl

pages_of_some : page_count 49 ≡ 3
unfolding page_count
pages_of_some = refl

-- Numbers in unary, and their length.
abbrev tally : ℕ → String
tally zero = ""
tally (suc n) = String.◌∷◌ "x" (tally n)

abbrev length_of : String → ℕ
length_of String.[] = 0
length_of (String.◌∷◌ c s) = suc (length_of s)

abbrev parse_tally : Option String → Option ℕ
parse_tally none = none
parse_tally (some s) = some (length_of s)

length_of-tally : (n : ℕ) → length_of (tally n) ≡ n
length_of-tally zero = refl
length_of-tally (suc n) = ap suc (length_of-tally n)

abbrev searched : ListState
searched = record { page = 3; q = "ci"; sort = "created" }

read-write_example : read_list_state parse_tally (write_list_state tally searched) ≡ searched
unfolding known_sort
read-write_example =
    read-write parse_tally tally searched (λ n. ap some (length_of-tally n)) refl
      (ground arith, refl)
