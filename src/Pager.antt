-- ===== src/Pager.antt =====
-- The pages of the grid of pipelines (components/PipelineList.js): the numbers that the pager shows,
-- and the page, search and order that the address keeps. `parseInt` and the text of a number are
-- JavaScript's.
pub mod Items
pub mod Address
mod Tests
use pikoci.Base.{
  ℕ, suc, ◌+◌, ◌-◌, ◌*◌, ◌/◌, zero, String, Bool, true, false, not, ◌&&◌, ◌||◌, Option, none, some,
  List, [], ◌∷◌, ◌++◌, ltb, leb, find, number_equality, text_equality, ◌==◌, if◌then◌else◌,
}

abbrev pub page_size : ℕ
page_size = 24

-- `Math.max(1, Math.ceil(total / PAGE_SIZE))`
unfoldable pub page_count : ℕ → ℕ
page_count total = let pages = (total + 23) / page_size in if ltb 1 pages then pages else 1

pub data Item : Type 0 where
  gap : Item
  number : ℕ → Bool → Item  -- whether it is the current page

-- Not the test of line 162: the first and the last page, the current one and its neighbours.
unfoldable pub is_shown : ℕ → ℕ → ℕ → Bool
is_shown page count n = n == 1 || (n == count || (leb n (page + 1) && leb page (n + 1)))

-- The loop, with `left` rounds to go: `n` is the round's page and `last` the last one shown.
unfoldable pub items_from : ℕ → ℕ → ℕ → ℕ → ℕ → List Item
items_from page count zero n last = []
items_from page count (suc left) n last =
    let shown = number n (n == page) ∷ items_from page count left (suc n) n in
    let skipped = items_from page count left (suc n) last in
    if is_shown page count n then (if ltb 1 (n - last) then gap ∷ shown else shown) else skipped

-- The items of `Pager`.
unfoldable pub items : ℕ → ℕ → List Item
items page count = items_from page count count 1 0

-- What `onPage` is called with: a number, the arrow back and the arrow on.
unfoldable pub click_number : ℕ → ℕ → Option ℕ
click_number page n = if n == page then none else some n

unfoldable pub click_back : ℕ → Option ℕ
click_back page = if ltb 1 page then some (page - 1) else none

unfoldable pub click_on : ℕ → ℕ → Option ℕ
click_on page count = if ltb page count then some (page + 1) else none

pub record ListState : Type 0 where
  pub page : ℕ
  pub q : String
  pub sort : String

-- `URLSearchParams.get`
unfoldable pub get_param : String → List (String × String) → Option String
get_param k [] = none
get_param k ((name, value) ∷ rest) = if name == k then some value else get_param k rest

unfoldable pub known_sort : Option String → String
known_sort none = "name"
known_sort (some s) = if s == "name" || s == "created" then s else "name"

unfoldable pub or_blank : Option String → String
or_blank none = ""
or_blank (some s) = s

unfoldable pub or_first : Option ℕ → ℕ
or_first none = 1
or_first (some n) = if ltb 0 n then n else 1

-- `parse_int` is `none` at what `parseInt` has as NaN or as a negative number.
unfoldable pub read_list_state : (Option String → Option ℕ) → List (String × String) → ListState
read_list_state parse_int p = record {
  page = or_first (parse_int (get_param "page" p));
  q = or_blank (get_param "q" p);
  sort = known_sort (get_param "sort" p);
}

-- The parameters as `URLSearchParams` holds them: their text in the address is the browser's, which
-- reads it back as it wrote it.
unfoldable pub write_list_state : (ℕ → String) → ListState → List (String × String)
write_list_state show s =
    let page = if ltb 1 s.page then ("page", show s.page) ∷ [] else [] in
    let q = if s.q == "" then [] else ("q", s.q) ∷ [] in
    let sort = if s.sort == "name" then [] else ("sort", s.sort) ∷ [] in page ++ q ++ sort

-- `setPage`, `setSort` and the search once its timer is up.
unfoldable pub set_page : ℕ → ListState → ListState
set_page n s = record s { page = n }

unfoldable pub set_sort : String → ListState → ListState
set_sort next s = record s { sort = next; page = 1 }

unfoldable pub set_search : String → ListState → ListState
set_search typed s = if typed == s.q then s else record s { q = typed; page = 1 }
