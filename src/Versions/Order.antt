-- ===== src/Versions/Order.antt =====
-- The versions stand in the order of their ids, the newest first.
use pikoci.Base.{
  ◌<◌, ◌∙◌, ◌&&◌, Bool, true, false, Option, none, some, List, [], ◌∷◌, or_empty, ◌≡◌, arith, inl,
  inr, All, if◌then◌else◌, number_equality, contains, IsDistinct, Bool-cases, ltb,
}
use pikoci.Sort.{sort, insert}
use pikoci.Sort.Laws.{All-insert, contains-sort}
use pikoci.Versions.{
  Version, Answer, Page, Request, version_ids, newer, put_all, merge_poll, merge_more, first_page,
  polled, on_scroll, more_answered, request_answered, do_request, is_idle, on_pin_version, Event,
  resource_answered, paged, poll_answered, scrolled, scroll_answered, pin_pressed, unpin_pressed,
  answered, row_pressed, step, run, opened, pinning, unpinning,
}
use pikoci.Versions.Merge.{update_all-IsDistinct, put_missing-IsDistinct, by_id-IsDistinct}

abbrev pub IsDescending : List Version → Type 0
IsDescending [] = Unit
IsDescending (v ∷ vs) = All (λ w. w.id < v.id) vs × IsDescending vs

-- The first page comes in order.
abbrev pub IsInOrder : Event → Type 0
IsInOrder (paged (some a)) = IsDescending (or_empty a.versions)
IsInOrder _ = Unit

below :
    (v u : Version) (vs : List Version)
    → v.id < u.id
    → All (λ w. w.id < v.id) vs
    → All (λ w. w.id < u.id) vs
below v u [] h a = tt
below v u (w ∷ vs) h a = (omega (arith, h, a.0), below v u vs h a.1)

insert-IsDescending :
    (v : Version) (ws : List Version)
    → contains (version_ids ws) v.id ≡ false
    → IsDescending ws
    → IsDescending (insert newer v ws)
unfolding insert newer contains
insert-IsDescending v [] h d = (tt, tt)
insert-IsDescending v (w ∷ ws) h d = elim (Bool-cases (ltb v.id w.id)) [
  | inl e ↦ rw e (
    All-insert newer (λ u. u.id < w.id) v ws (ground (arith, e)) d.0,
    insert-IsDescending v ws (ground (arith, h)) d.1,
  )
  | inr e ↦ rw e ((ground (arith, e, h), below w v ws (ground (arith, e, h)) d.0), d)
]

sort-IsDescending : (vs : List Version) → IsDistinct (version_ids vs) → IsDescending (sort newer vs)
unfolding sort
sort-IsDescending [] d = tt
sort-IsDescending (v ∷ vs) d =
    insert-IsDescending v (sort newer vs) (contains-sort newer (λ w. w.id) vs v.id ∙ d.0)
      (sort-IsDescending vs d.1)

IsFine : Page → Type 0
IsFine s = IsDescending s.versions

merges-IsDescending :
    (vs prev : List Version) → IsDescending (merge_poll vs prev) × IsDescending (merge_more vs prev)
unfolding merge_poll merge_more
merges-IsDescending vs prev = (
  sort-IsDescending _ (update_all-IsDistinct vs (put_all prev []) (by_id-IsDistinct prev)),
  sort-IsDescending _ (put_missing-IsDistinct vs (put_all prev []) (by_id-IsDistinct prev)),
)

either_page : (b : Bool) (s t : Page) → IsFine s → IsFine t → IsFine (if b then s else t)
either_page true s t h k = h
either_page false s t h k = k

request-IsFine :
    (good : Bool) (rs : List Request) (s : Page) → IsFine s → IsFine (request_answered good rs s)
unfolding request_answered do_request IsFine
request-IsFine good [] s h = h
request-IsFine true (pinning id ∷ rs) s h = h
request-IsFine true (unpinning ∷ rs) s h = h
request-IsFine false (r ∷ rs) s h = h

more-IsFine : (a : Option Answer) (s : Page) → IsFine s → IsFine (more_answered a s)
unfolding more_answered IsFine
more-IsFine none s h = h
more-IsFine (some a) s h = (merges-IsDescending (or_empty a.versions) s.versions).1

step-IsFine : (e : Event) (s : Page) → IsInOrder e → IsFine s → IsFine (step e s)
unfolding step first_page polled on_scroll on_pin_version IsFine
step-IsFine (resource_answered r) s o h = h
step-IsFine (paged none) s o h = h
step-IsFine (paged (some a)) s o h = o
step-IsFine (poll_answered none) s o h = h
step-IsFine (poll_answered (some a)) s o h =
    (merges-IsDescending (or_empty a.versions) s.versions).0
step-IsFine scrolled s o h = either_page (is_idle s.fetching_more && s.has_more) _ s h h
step-IsFine (scroll_answered a) s o h =
    either_page (is_idle s.fetching_more) s (more_answered a s) h (more-IsFine a s h)
step-IsFine (pin_pressed id) s o h = h
step-IsFine unpin_pressed s o h = h
step-IsFine (answered good) s o h = request-IsFine good s.waiting s h
step-IsFine (row_pressed id) s o h = h

run-IsFine :
    (events : List Event) (s : Page) → All IsInOrder events → IsFine s → IsFine (run events s)
unfolding run
run-IsFine [] s o h = h
run-IsFine (e ∷ events) s o h = run-IsFine events (step e s) o.1 (step-IsFine e s o.0 h)

-- If the first page comes in the order of the ids, the newest first, then after whatever polls,
-- pages and presses the versions stand in this order, each once.
pub run-IsDescending :
    (events : List Event) → All IsInOrder events → IsDescending (run events opened).versions
unfolding IsFine
run-IsDescending events o = run-IsFine events opened o tt
