-- ===== src/BuildList/Distinct.antt =====
-- No build stands twice in the list, in whatever order the answers of the server arrive.
use pikoci.Base.{
  ℕ, Bool, true, false, Option, none, some, List, [], ◌∷◌, map, or_empty, if◌then◌else◌, ◌==◌,
  number_equality, contains, IsDistinct, ◌≡◌, refl, sym, arith, All, Option-cases, inl, inr, ==_iff,
}
use mathlib.Core.Path.{subst}
use pikoci.Builds.{Build}
use pikoci.BuildList.{
  Page, Meta, State, ids, filter_by_tracked, more_meta, more_builds, fetch_more, fetch_new,
  fresh_of, fresh_or, refresh, refresh_page, replace, if_cursor, new_cursor, add_new, Event, polled,
  retried, scrolled, refreshed, fetched, clicked, step, run,
}
use pikoci.BuildList.Merges.{
  HasDistinctIds, filter-HasDistinctIds, sort_builds-HasDistinctIds, merge_fresh-HasDistinctIds,
  merge_more-HasDistinctIds,
}

fresh_of-id : (fresh : List Build) (id : ℕ) (c : Build) → fresh_of fresh id ≡ some c → c.id ≡ id
unfolding fresh_of
fresh_of-id [] id c h = cc
fresh_of-id (b ∷ fresh) id c h = ground (arith, fresh_of-id fresh id c, ==_iff b.id id)

fresh_or-id : (fresh : List Build) (b : Build) → (fresh_or fresh b).id ≡ b.id
unfolding fresh_or
fresh_or-id fresh b = elim (Option-cases (fresh_of fresh b.id)) [
  | inl e ↦ rw (e, fresh_or)
  | inr (c, e) ↦ rw (e, fresh_or) (fresh_of-id fresh b.id c e)
]

ids-map :
    (f : Build → Build)
    → ((b : Build) → (f b).id ≡ b.id)
    → (builds : List Build) → ids (map f builds) ≡ ids builds
ids-map f same [] = refl
ids-map f same (b ∷ builds) = rw (same b, ids-map f same builds)

refresh-HasDistinctIds :
    (fresh prev : List Build) → HasDistinctIds prev → HasDistinctIds (refresh fresh prev)
unfolding refresh
refresh-HasDistinctIds [] prev d = d
refresh-HasDistinctIds (f ∷ fresh) prev d =
    sort_builds-HasDistinctIds _
      (subst IsDistinct (sym (ids-map (fresh_or (f ∷ fresh)) (fresh_or-id (f ∷ fresh)) prev)) d)

replace-HasDistinctIds :
    (b : Build) (prev : List Build) → HasDistinctIds prev → HasDistinctIds (replace b prev)
unfolding replace
replace-HasDistinctIds b prev d = sort_builds-HasDistinctIds _ (
    subst IsDistinct
      (sym
        (ids-map (λ x. if x.id == b.id then b else x) (λ x. ground (arith, ==_iff x.id b.id)) prev))
      d)

filter_by_tracked-HasDistinctIds :
    (tracked : Option (List ℕ)) (builds : List Build)
    → HasDistinctIds builds
    → HasDistinctIds (filter_by_tracked tracked builds)
unfolding filter_by_tracked
filter_by_tracked-HasDistinctIds none builds d = d
filter_by_tracked-HasDistinctIds (some tracked) builds d =
    filter-HasDistinctIds (λ b. contains tracked b.id) builds d

add_new-HasDistinctIds :
    (filters : Bool) (o : Option (List Build)) (s : State)
    → HasDistinctIds (or_empty o)
    → HasDistinctIds s.builds
    → HasDistinctIds (add_new filters (o, s)).builds
unfolding add_new
add_new-HasDistinctIds filters none s dn d = d
add_new-HasDistinctIds filters (some []) s dn d = d
add_new-HasDistinctIds false (some (b ∷ news)) s dn d =
    merge_fresh-HasDistinctIds (b ∷ news) s.builds dn d
add_new-HasDistinctIds true (some (b ∷ news)) s dn d =
    filter_by_tracked-HasDistinctIds s.tracked _
      (merge_fresh-HasDistinctIds (b ∷ news) s.builds dn d)

abbrev pub builds_of : Option Page → List Build
builds_of none = []
builds_of (some page) = or_empty page.builds

-- The server sends no build twice in one page of new or of older builds.
abbrev pub IsProper : Event → Type 0
IsProper (polled page) = HasDistinctIds (builds_of page)
IsProper (retried page) = HasDistinctIds (builds_of page)
IsProper (scrolled page) = HasDistinctIds (builds_of page)
IsProper _ = Unit

fetch_new-builds : (page : Option Page) (s : State) → (fetch_new page s).1.builds ≡ s.builds
unfolding fetch_new
fetch_new-builds page s = ground arith

fetch_new-HasDistinctIds :
    (filters : Bool) (page : Option Page) (s : State)
    → HasDistinctIds (builds_of page)
    → HasDistinctIds s.builds
    → HasDistinctIds (add_new filters (fetch_new page s)).builds
unfolding fetch_new
fetch_new-HasDistinctIds filters none s dp d = add_new-HasDistinctIds filters none s tt d
fetch_new-HasDistinctIds filters (some page) s dp d =
    add_new-HasDistinctIds filters (some (or_empty page.builds)) _ dp
      (subst HasDistinctIds (sym (fetch_new-builds (some page) s)) d)

more_builds-HasDistinctIds :
    (more : List Build) (s : State)
    → HasDistinctIds more
    → HasDistinctIds s.builds
    → HasDistinctIds (more_builds more s).builds
unfolding more_builds
more_builds-HasDistinctIds [] s dm d = d
more_builds-HasDistinctIds (b ∷ more) s dm d = merge_more-HasDistinctIds (b ∷ more) s.builds dm d

more_meta-builds : (m : Option Meta) (s : State) → (more_meta m s).builds ≡ s.builds
unfolding more_meta
more_meta-builds none s = refl
more_meta-builds (some m) s = refl

if_cursor-HasDistinctIds :
    (s t : State)
    → HasDistinctIds s.builds
    → HasDistinctIds t.builds
    → HasDistinctIds (if_cursor s t).builds
unfolding if_cursor
if_cursor-HasDistinctIds s t d d' = elim (Option-cases (new_cursor s)) [
  | inl e ↦ rw (e, if_cursor) d
  | inr (n, e) ↦ rw (e, if_cursor) d'
]

step-HasDistinctIds :
    (s : State) (e : Event)
    → IsProper e
    → HasDistinctIds s.builds
    → HasDistinctIds (step s e).builds
unfolding step fetch_more refresh_page
step-HasDistinctIds s (polled page) p d =
    if_cursor-HasDistinctIds s _ d (fetch_new-HasDistinctIds true page s p d)
step-HasDistinctIds s (retried page) p d =
    if_cursor-HasDistinctIds s _ d (fetch_new-HasDistinctIds false page s p d)
step-HasDistinctIds s (scrolled none) p d = d
step-HasDistinctIds s (scrolled (some page)) p d =
    more_builds-HasDistinctIds (or_empty page.builds) _ p (rw (more_meta-builds page.meta s) d)
step-HasDistinctIds s (refreshed none) p d = d
step-HasDistinctIds s (refreshed (some page)) p d =
    refresh-HasDistinctIds (or_empty page.builds) s.builds d
step-HasDistinctIds s (fetched none) p d = d
step-HasDistinctIds s (fetched (some b)) p d = replace-HasDistinctIds b s.builds d
step-HasDistinctIds s (clicked b) p d = d

-- However the answers of the server follow one another, the list of builds never holds two of one
-- id, if no page of new or of older builds does and the list did not at first.
pub run-HasDistinctIds :
    (s : State) (events : List Event)
    → All IsProper events
    → HasDistinctIds s.builds
    → HasDistinctIds (run s events).builds
unfolding run
run-HasDistinctIds s [] p d = d
run-HasDistinctIds s (e ∷ events) p d =
    run-HasDistinctIds (step s e) events p.1 (step-HasDistinctIds s e p.0 d)
