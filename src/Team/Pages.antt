-- ===== src/Team/Pages.antt =====
-- The audit log that is loaded page by page.
use mathlib.Core.List.{append-nil, append_assoc}
use pikoci.Base.{
  ℕ, zero, suc, ◌≤◌, Bool, true, false, none, some, List, [], ◌∷◌, ◌++◌, String, ◌≡◌, refl, sym, ap,
  ◌∙◌, arith, if◌then◌else◌, length, length-append,
}
use pikoci.Team.Audit.{
  Entry, Query, replacing, appending, Page, is_idle, Log, search_params, load_entries, load_more,
  ask_more, answer, oldest, applied, pressed_more, answered, step,
}

-- The rest of a list behind a page: nothing, if the page says that there is no more.
abbrev pub IsPage : Page → List Entry → Type 0
IsPage p l =
    ((rest : List Entry) × (p.data_entries ++ rest ≡ l) × (p.more ≡ false → rest ≡ []))
    × (p.more ≡ true → 1 ≤ length p.data_entries)

-- A server that has a list for some parameters, and gives it page by page.
pub record IsPaging (server : Query → Page) (params : List (String × String)) (l : List Entry)
    : Type 0 where
  pub first : IsPage (server (record { params = params; before = none })) l
  pub next :
      (xs : List Entry) (x : Entry) (rest : List Entry)
      → xs ++ x ∷ rest ≡ l
      → IsPage (server (record { params = params; before = some x.id })) rest

-- The server answers what waits.
abbrev pub serve : (String → String) → (Query → Page) → Log → Log
serve iso server s = elim s.waiting [
  | none ↦ s
  | some (replacing q) ↦ step iso (answered (server q)) s
  | some (appending q) ↦ step iso (answered (server q)) s
]

-- The filters are applied, then more is asked for a number of times.
abbrev pub read : (String → String) → (Query → Page) → ℕ → Log → Log
read iso server zero s = serve iso server (step iso applied s)
read iso server (suc n) s = serve iso server (step iso pressed_more (read iso server n s))

abbrev pub with_page : Log → List Entry → Bool → Log
with_page s es more = record s { entries = es; has_more = more; waiting = none }

-- What was loaded of a list.
record IsLoaded (l : List Entry) (n : ℕ) (es : List Entry) (more : Bool) : Type 0 where
  pub rest : List Entry
  pub whole : es ++ rest ≡ l
  pub ended : more ≡ false → rest ≡ []
  pub many : more ≡ true → n ≤ length es

last_entry :
    (es : List Entry)
    → 1 ≤ length es
    → (xs : List Entry) × (x : Entry) × (es ≡ xs ++ x ∷ []) × (oldest es ≡ some x.id)
unfolding oldest
last_entry [] h = absurd (omega (arith, h))
last_entry (x ∷ []) h = ([], x, refl, refl)
last_entry (e ∷ f ∷ es) h =
    let (xs, x, k, o) = last_entry (f ∷ es) (omega arith) in (e ∷ xs, x, ap (λ l. e ∷ l) k, o)

-- One more page.
more-IsLoaded :
    (iso : String → String) (server : Query → Page) (s : Log) (l : List Entry)
    → IsPaging server (search_params iso s none).params l
    → (n : ℕ) (es : List Entry) (more : Bool) → IsLoaded l (suc n) es more
    → (es2 : List Entry) × (more2 : Bool) × IsLoaded l (suc (suc n)) es2 more2
      × (serve iso server (step iso pressed_more (with_page s es more)) ≡ with_page s es2 more2)
unfolding step is_idle load_more ask_more answer search_params
more-IsLoaded iso server s l paging n es false h =
    (es, false, record { rest = h.rest; whole = h.whole; ended = h.ended; many = λ k. cc }, refl)
more-IsLoaded iso server s l paging n es true h =
    let (xs, x, k, o) = last_entry es (omega (arith, h.many refl)) in
    let p = server (search_params iso s (some x.id)) in
    let at : xs ++ x ∷ h.rest ≡ l =
      sym (append_assoc xs (x ∷ []) h.rest) ∙ (ap (λ e. e ++ h.rest) (sym k) ∙ h.whole) in
    let ((r, w, d), m) = paging.next xs x h.rest at in
    (
      es ++ p.data_entries,
      p.more,
      record {
        rest = r;
        whole = append_assoc es p.data_entries r ∙ (ap (λ e. es ++ e) w ∙ h.whole);
        ended = d;
        many = λ g. omega (arith, length-append es p.data_entries, m g, h.many refl);
      },
      ap (λ q. serve iso server (ask_more iso q (with_page s es true))) o,
    )

read-IsLoaded :
    (iso : String → String) (server : Query → Page) (s : Log) (l : List Entry)
    → is_idle s.waiting ≡ true
    → IsPaging server (search_params iso s none).params l
    → (n : ℕ)
    → (es : List Entry) × (more : Bool) × IsLoaded l (suc n) es more
      × (read iso server n s ≡ with_page s es more)
unfolding step load_entries answer search_params
read-IsLoaded iso server s l idle paging zero =
    let p = server (search_params iso s none) in
    let ((r, w, d), m) = paging.first in
    (
      p.data_entries,
      p.more,
      record { rest = r; whole = w; ended = d; many = m },
      ap (λ b. serve iso server (if b then load_entries iso s else s)) idle,
    )
read-IsLoaded iso server s l idle paging (suc n) =
    let (es, more, h, e) = read-IsLoaded iso server s l idle paging n in
    let (es2, more2, h2, e2) = more-IsLoaded iso server s l paging n es more h in
    (es2, more2, h2, ap (λ t. serve iso server (step iso pressed_more t)) e ∙ e2)

loaded_all :
    (l : List Entry) (n : ℕ) (es : List Entry) (more : Bool)
    → IsLoaded l (suc n) es more
    → length l ≤ n
    → es ≡ l
loaded_all l n es true h k =
    absurd (omega (arith, k, h.many refl, length-append es h.rest, ap length h.whole))
loaded_all l n es false h k =
    sym (append-nil es) ∙ (ap (λ r. es ++ r) (sym (h.ended refl)) ∙ h.whole)

-- If the server gives the list of entries for the filters page by page, then applying the filters
-- while nothing waits, and asking for more at least as often as there are entries, loads exactly
-- this list.
pub read-entries :
    (iso : String → String) (server : Query → Page) (s : Log) (l : List Entry)
    → is_idle s.waiting ≡ true
    → IsPaging server (search_params iso s none).params l
    → (n : ℕ) → length l ≤ n
    → (read iso server n s).entries ≡ l
read-entries iso server s l idle paging n k =
    let (es, more, h, e) = read-IsLoaded iso server s l idle paging n in
    ap (λ t. t.entries) e ∙ loaded_all l n es more h k
