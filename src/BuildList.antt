-- ===== src/BuildList.antt =====
-- The list of builds of the component `JobBuilds` (components/Jobs.js): pages that arrive from the
-- server are merged into it. The state is that of the hooks and refs; the answers of the server are
-- arguments, `none` where the request is rejected, and a sequence of answers is a list of events.
pub mod Merges
pub mod Distinct
pub mod Cap
pub mod Cursor
mod Tests
use pikoci.Base.{
  ℕ, zero, suc, leb, String, Bool, true, false, not, ◌&&◌, ◌||◌, Option, none, some, List, [], ◌∷◌,
  ◌++◌, map, filter, find, take, any, length, or_empty, if◌then◌else◌, ◌==◌, number_equality,
  text_equality, contains,
}
use pikoci.Builds.{Build, sort_builds, select_active_build}

-- `buildListCap` of utils.js
abbrev pub build_list_cap : ℕ
build_list_cap = 500

pub record Meta : Type 0 where
  pub newest_id : Option ℕ
  pub oldest_id : Option ℕ
  pub has_more : Option Bool

pub record Page : Type 0 where
  pub builds : Option (List Build)
  pub meta : Option Meta

pub record State : Type 0 where
  pub builds : List Build
  pub active_id : Option ℕ
  pub newest : Option ℕ
  pub oldest : Option ℕ
  pub has_more : Bool
  pub tracked : Option (List ℕ)

-- `x || null`
abbrev pub or_null : Option ℕ → Option ℕ
or_null none = none
or_null (some zero) = none
or_null (some (suc n)) = some (suc n)

-- `x || false`
abbrev pub or_false : Option Bool → Bool
or_false none = false
or_false (some b) = b

-- `x || y`, for a number `x`
abbrev pub or_else : Option ℕ → Option ℕ → Option ℕ
or_else none y = y
or_else (some zero) y = y
or_else (some (suc n)) y = some (suc n)

abbrev pub ids : List Build → List ℕ
ids = map (λ b. b.id)

unfoldable pub filter_by_tracked : Option (List ℕ) → List Build → List Build
filter_by_tracked none builds = builds
filter_by_tracked (some tracked) builds = filter (λ b. contains tracked b.id) builds

-- `loadBuilds`: the sorted page, and the cursors that it brings.
unfoldable pub load_builds : Option Page → State → List Build × State
load_builds none s = ([], s)
load_builds (some page) s = (
  sort_builds (or_empty page.builds),
  elim page.meta [
    | none ↦ record s { newest = none; oldest = none; has_more = false }
    | some m ↦ record s {
      newest = or_null m.newest_id;
      oldest = or_null m.oldest_id;
      has_more = or_false m.has_more;
    }
  ],
)

-- The cursor that `fetchNewBuilds` asks with, if it asks.
unfoldable pub new_cursor : State → Option ℕ
new_cursor s = or_null s.newest

-- `fetchNewBuilds` when its answer is there.
unfoldable pub fetch_new : Option Page → State → Option (List Build) × State
fetch_new none s = (none, s)
fetch_new (some page) s = (
  some (or_empty page.builds),
  elim page.meta [
    | none ↦ s
    | some m ↦ elim (or_null m.newest_id) [ none ↦ s | some n ↦ record s { newest = some n } ]
  ],
)

-- The builds of `news` that are not in `prev`.
unfoldable pub unknown : List Build → List Build → List Build
unknown prev news = filter (λ b. not (contains (ids prev) b.id)) news

-- `sortBuilds([...fresh, ...prev])`
unfoldable pub merge_fresh : List Build → List Build → List Build
merge_fresh news prev = sort_builds (unknown prev news ++ prev)

-- The cursor that `fetchMoreBuilds` asks with, if it asks.
unfoldable pub more_cursor : State → Option ℕ
more_cursor s = if s.has_more then or_null s.oldest else none

abbrev pub is_terminal : Build → Bool
is_terminal b = b.status == "succeeded" || (b.status == "failed" || b.status == "cancelled")

abbrev pub is_live : Build → Bool
is_live b = not (is_terminal b)

-- The live builds and then the ended ones, cut at the cap.
unfoldable pub trim : List Build → List Build
trim merged = sort_builds (take build_list_cap (filter is_live merged ++ filter is_terminal merged))

unfoldable pub merge_more : List Build → List Build → List Build
merge_more more prev =
    let merged = sort_builds (prev ++ unknown prev more) in
    if leb (length merged) build_list_cap then merged else trim merged

-- `fetchMoreBuilds` when its answer is there.
unfoldable pub more_meta : Option Meta → State → State
more_meta none s = s
more_meta (some m) s = record s {
  oldest = or_else m.oldest_id s.oldest;
  has_more = or_false m.has_more;
}

unfoldable pub more_builds : List Build → State → State
more_builds [] s = s
more_builds (b ∷ more) s = record s { builds = merge_more (b ∷ more) s.builds }

unfoldable pub fetch_more : Option Page → State → State
fetch_more none s = s
fetch_more (some page) s = more_builds (or_empty page.builds) (more_meta page.meta s)

-- `doActivate`, without the address bar.
unfoldable pub do_activate : Option ℕ → List Build → State → State
do_activate requested builds s = elim (select_active_build builds requested) [
  | none ↦ s
  | some b ↦ record s { active_id = some b.id }
]

-- `nonTerminal.includes(b.status)`
abbrev pub is_non_terminal : Build → Bool
is_non_terminal b =
    b.status == "pending" || (b.status == "started" || b.status == "waiting_for_approval")

-- `freshMap.get(id)`: the last build of that id.
unfoldable pub fresh_of : List Build → ℕ → Option Build
fresh_of [] id = none
fresh_of (b ∷ fresh) id = elim (fresh_of fresh id) [
  | some c ↦ some c
  | none ↦ if b.id == id then some b else none
]

-- `freshMap.get(b.id) || b`
unfoldable pub fresh_or : List Build → Build → Build
fresh_or fresh b = elim (fresh_of fresh b.id) [ none ↦ b | some c ↦ c ]

-- The builds that `refreshActiveBuild` fetches one by one.
unfoldable pub stale : List Build → List Build → List Build
stale fresh prev = filter (λ b. is_non_terminal b && not (contains (ids fresh) b.id)) prev

-- The update of `refreshActiveBuild`, with the page of the builds that have not ended.
unfoldable pub refresh : List Build → List Build → List Build
refresh [] prev = prev
refresh (f ∷ fresh) prev = sort_builds (map (fresh_or (f ∷ fresh)) prev)

unfoldable pub refresh_page : Option Page → State → State
refresh_page none s = s
refresh_page (some page) s = record s { builds = refresh (or_empty page.builds) s.builds }

-- `p.map(x => x.id === b.id ? b : x)`, sorted
unfoldable pub replace : Build → List Build → List Build
replace b prev = sort_builds (map (λ x. if x.id == b.id then b else x) prev)

-- The part of `pollBuilds` and of `onRetry` behind `fetchNewBuilds`; the poll filters.
unfoldable pub add_new : Bool → Option (List Build) × State → State
add_new filters (none, s) = s
add_new filters (some [], s) = s
add_new filters (some (b ∷ news), s) =
    let merged = merge_fresh (b ∷ news) s.builds in
    record s { builds = if filters then filter_by_tracked s.tracked merged else merged }

-- `if (!metaRef.current.newestID) return null`: without a cursor there is no request. A cursor, once
-- there, is not lost, so the test may stand at the answer.
unfoldable pub if_cursor : State → State → State
if_cursor s t = elim (new_cursor s) [ none ↦ s | some _ ↦ t ]

-- What happens to a mounted component: the answer to a poll, to the requests that a retry, a scroll and
-- the poll make, a build that was fetched by itself, and a click on a tab. A scroll makes its request only
-- where there is a `more_cursor`.
pub data Event : Type 0 where
  polled retried scrolled refreshed : Option Page → Event
  fetched : Option Build → Event
  clicked : Build → Event

unfoldable pub step : State → Event → State
step s (polled page) = if_cursor s (add_new true (fetch_new page s))
step s (retried page) = if_cursor s (add_new false (fetch_new page s))
step s (scrolled page) = fetch_more page s
step s (refreshed page) = refresh_page page s
step s (fetched none) = s
step s (fetched (some b)) = record s { builds = replace b s.builds }
step s (clicked b) = record s { active_id = some b.id }

unfoldable pub run : State → List Event → State
run s [] = s
run s (e ∷ events) = run (step s e) events
