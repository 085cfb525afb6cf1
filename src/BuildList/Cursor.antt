-- ===== src/BuildList/Cursor.antt =====
-- The cursor of the newest build, with which new builds are asked for.
use pikoci.Base.{
  Bool, true, false, Option, none, some, List, [], ◌∷◌, ◌≡◌, ◌≢◌, refl, arith, All, or_empty,
  Option-cases, inl, inr,
}
use pikoci.Sort.{sort}
use pikoci.Builds.{Build, sort_builds}
use pikoci.BuildList.{
  Page, State, or_null, new_cursor, fetch_new, fetch_more, more_builds, more_meta, refresh,
  refresh_page, replace, add_new, if_cursor, Event, polled, retried, scrolled, refreshed, fetched,
  clicked, step, run,
}

add_new-newest :
    (filters : Bool) (o : Option (List Build)) (s : State)
    → (add_new filters (o, s)).newest ≡ s.newest
unfolding add_new
add_new-newest filters none s = refl
add_new-newest filters (some []) s = refl
add_new-newest filters (some (b ∷ news)) s = refl

more-newest : (page : Option Page) (s : State) → (fetch_more page s).newest ≡ s.newest
unfolding fetch_more more_builds more_meta
more-newest page s = ground arith

fetch_new_cursor :
    (page : Option Page) (s : State)
    → new_cursor s ≢ none
    → or_null (fetch_new page s).1.newest ≢ none
unfolding fetch_new new_cursor
fetch_new_cursor page s h = ground arith

add_fetched_cursor :
    (filters : Bool) (page : Option Page) (s : State)
    → new_cursor s ≢ none
    → new_cursor (add_new filters (fetch_new page s)) ≢ none
unfolding new_cursor
add_fetched_cursor filters page s h = ground (
  arith,
  add_new-newest filters (fetch_new page s).0 (fetch_new page s).1,
  fetch_new_cursor page s h,
)

if_cursor_kept :
    (s t : State) → new_cursor s ≢ none → new_cursor t ≢ none → new_cursor (if_cursor s t) ≢ none
unfolding if_cursor
if_cursor_kept s t h k = elim (Option-cases (new_cursor s)) [
  | inl e ↦ rw (e, if_cursor) h
  | inr (n, e) ↦ rw (e, if_cursor) k
]

step_cursor : (s : State) (e : Event) → new_cursor s ≢ none → new_cursor (step s e) ≢ none
unfolding step
step_cursor s (polled page) h = if_cursor_kept s _ h (add_fetched_cursor true page s h)
step_cursor s (retried page) h = if_cursor_kept s _ h (add_fetched_cursor false page s h)
step_cursor s (scrolled page) h = unfold new_cursor in ground (arith, more-newest page s, h)
step_cursor s (refreshed page) h = unfold new_cursor refresh_page in ground (arith, h)
step_cursor s (fetched b) h = unfold new_cursor in ground (arith, h)
step_cursor s (clicked b) h = unfold new_cursor in ground (arith, h)

-- Once there is a cursor for new builds, no answer of the server takes it away.
run_cursor :
    (s : State) (events : List Event) → new_cursor s ≢ none → new_cursor (run s events) ≢ none
unfolding run
run_cursor s [] h = h
run_cursor s (e ∷ events) h = run_cursor (step s e) events (step_cursor s e h)

-- Not the answer to a scroll, which is asked for only if the first page had a successor.
abbrev pub IsNotScroll : Event → Type 0
IsNotScroll (scrolled page) = ⊥
IsNotScroll _ = Unit

IsIdle : State → Type 0
IsIdle s = (new_cursor s ≡ none) × (s.builds ≡ [])

refresh_nothing : (fresh : List Build) → refresh fresh [] ≡ []
unfolding refresh sort_builds sort
refresh_nothing [] = refl
refresh_nothing (f ∷ fresh) = refl

replace_nothing : (b : Build) → replace b [] ≡ []
unfolding replace sort_builds sort
replace_nothing b = refl

step-IsIdle : (s : State) (e : Event) → IsNotScroll e → IsIdle s → IsIdle (step s e)
unfolding step IsIdle refresh_page if_cursor new_cursor
step-IsIdle s (polled page) n (c, h) = rw (c, if_cursor) (c, h)
step-IsIdle s (retried page) n (c, h) = rw (c, if_cursor) (c, h)
step-IsIdle s (scrolled page) n i = absurd n
step-IsIdle s (refreshed none) n i = i
step-IsIdle s (refreshed (some page)) n (c, h) = (c, rw h (refresh_nothing (or_empty page.builds)))
step-IsIdle s (fetched none) n i = i
step-IsIdle s (fetched (some b)) n (c, h) = (c, rw h (replace_nothing b))
step-IsIdle s (clicked b) n (c, h) = (c, h)

-- A list that was loaded empty and without a cursor stays empty, whatever the answers to the
-- polls, retries and refreshes.
run_empty :
    (s : State) (events : List Event)
    → All IsNotScroll events
    → new_cursor s ≡ none
    → s.builds ≡ []
    → (run s events).builds ≡ []
unfolding run IsIdle
run_empty s events n c h = idle s events n (c, h)
  where
    idle :
        (s : State) (events : List Event)
        → All IsNotScroll events
        → IsIdle s
        → (run s events).builds ≡ []
    idle s [] n (c, h) = h
    idle s (e ∷ events) n i = idle (step s e) events n.1 (step-IsIdle s e n.0 i)
