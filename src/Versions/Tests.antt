-- ===== src/Versions/Tests.antt =====
-- Runs of the list of versions.
use pikoci.Base.{
  ℕ, ◌≡◌, refl, arith, true, none, some, Option, List, [], ◌∷◌, number_equality, contains,
}
use pikoci.Versions.{
  Version, Answer, version_with, overlay, put, put_all, update_all, put_new, put_missing, newer,
  merge_poll, merge_more, first_page, polled, on_scroll, more_answered, is_idle, paged,
  poll_answered, scrolled, scroll_answered, step, run, opened, version_ids,
}
use pikoci.Sort.{sort, insert}
use pikoci.Versions.Merge.{merges-with}
use pikoci.Versions.Order.{IsDescending, run-IsDescending}

abbrev plain : ℕ → Version
plain id = record { id = id; status = none; content = none }

abbrev page : List Version → Option ℕ → Answer
page vs oldest = record { versions = some vs; has_more = true; oldest_id = oldest }

-- The server has 1 to 8 and gives two of them: 5 and 6 came between two polls, and no page has them.
gap :
    version_ids
      (run
        (paged (some (page (plain 4 ∷ plain 3 ∷ []) (some 3)))
          ∷ poll_answered (some (page (plain 8 ∷ plain 7 ∷ []) (some 7)))
          ∷ scrolled
          ∷ scroll_answered (some (page (plain 2 ∷ plain 1 ∷ []) (some 1)))
          ∷ [])
        opened).versions
    ≡ 8 ∷ 7 ∷ 4 ∷ 3 ∷ 2 ∷ 1 ∷ []
unfolding run step first_page polled merge_poll sort insert newer update_all put_all put overlay
    on_scroll is_idle more_answered merge_more put_missing put_new contains
gap = refl

run-IsDescending_example :
    IsDescending
      (run
        (paged (some (page (plain 4 ∷ plain 3 ∷ []) (some 3)))
          ∷ poll_answered (some (page (plain 3 ∷ plain 8 ∷ []) (some 3)))
          ∷ [])
        opened).versions
run-IsDescending_example =
    run-IsDescending
      (paged (some (page (plain 4 ∷ plain 3 ∷ []) (some 3)))
        ∷ poll_answered (some (page (plain 3 ∷ plain 8 ∷ []) (some 3)))
        ∷ [])
      (((omega arith, tt), (tt, tt)), (tt, tt))

abbrev done : Version
done = record { id = 3; status = some "done"; content = none }

abbrev known : Version
known = record { id = 3; status = some "open"; content = some (("ref", "a") ∷ []) }

merges-with_example :
    (version_with 3 (merge_poll (done ∷ plain 8 ∷ []) (plain 4 ∷ known ∷ []))
      ≡ some (record { id = 3; status = some "done"; content = some (("ref", "a") ∷ []) }))
    × (version_with 3 (merge_more (plain 2 ∷ []) (plain 4 ∷ known ∷ [])) ≡ some known)
unfolding contains
merges-with_example =
    merges-with 3 (done ∷ plain 8 ∷ []) (plain 2 ∷ []) (plain 4 ∷ known ∷ []) (refl, (refl, tt))
      (refl, (refl, tt))
