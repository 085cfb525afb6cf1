-- ===== src/Tracking/Path.antt =====
-- Which builds a tracked version leaves in the list (components/Jobs.js).
use pikoci.Base.{
  ℕ, String, Bool, false, ◌&&◌, ◌||◌, ◌≡◌, ◌≢◌, refl, ◌∙◌, inl, inr, Option, none, some, List, [],
  ◌∷◌, any, filter, find, or_empty, contains, contains-append, number_equality, text_equality, ◌==◌,
  ==_iff, Bool-cases, Option-cases,
}
use pikoci.Builds.{Build}
use pikoci.BuildList.{filter_by_tracked}
use pikoci.Tracking.{
  PathEntry, PathData, Tracked, entry_ids, path_ids, has_path, track, track_first, fetch_tracked,
}

-- The entry is of the job, and the build or a retry of it has the id.
unfoldable pub mentions : String → ℕ → PathEntry → Bool
mentions jn k e = elim e.build [
  | none ↦ false
  | some b ↦ e.job_name == jn && (b == k || contains (or_empty e.retries) k)
]

contains-entry_ids :
    (jn : String) (k : ℕ) (e : PathEntry) → contains (entry_ids jn e) k ≡ mentions jn k e
unfolding entry_ids mentions contains
contains-entry_ids jn k e = elim (Option-cases e.build) [
  | inl h ↦ rw h refl
  | inr (b, h) ↦ elim (Bool-cases (e.job_name == jn)) [
    | inl m ↦ rw (h, m) refl
    | inr m ↦ rw (h, m) refl
  ]
]

contains-path_ids :
    (jn : String) (k : ℕ) (es : List PathEntry)
    → contains (path_ids jn es) k ≡ any (mentions jn k) es
unfolding path_ids contains
contains-path_ids jn k [] = refl
contains-path_ids jn k (e ∷ es) =
    contains-append (entry_ids jn e) (path_ids jn es) k
    ∙ rw (contains-entry_ids jn k e, contains-path_ids jn k es) refl

-- What one answer, the first with a path, leaves.
abbrev tracked_of : String → Option (Option (Option PathData)) → Tracked → Tracked
tracked_of jn none s = s
tracked_of jn (some none) s = s
tracked_of jn (some (some none)) s = s
tracked_of jn (some (some (some d))) s = track jn d

track_first-find :
    (jn : String) (answers : List (Option (Option PathData))) (s : Tracked)
    → track_first jn answers s ≡ tracked_of jn (find has_path answers) s
unfolding track_first has_path
track_first-find jn [] s = refl
track_first-find jn (none ∷ answers) s = track_first-find jn answers s
track_first-find jn (some none ∷ answers) s = track_first-find jn answers s
track_first-find jn (some (some a) ∷ answers) s = elim (Bool-cases (has_path (some (some a)))) [
  | inl e ↦ rw e refl
  | inr e ↦ rw e (track_first-find jn answers s)
]

filter-same :
    (p q : Build → Bool) (bs : List Build) → ((b : Build) → p b ≡ q b) → filter p bs ≡ filter q bs
filter-same p q [] h = refl
filter-same p q (b ∷ bs) h = rw (h b, filter-same p q bs h) refl

-- If a version is tracked and an answer with a path is the first among the settled ones, then
-- exactly the builds stay in the list that an entry of this path for the job has as its build or
-- as a retry of it.
tracked_builds_lem :
    (jn : String) (version : ℕ) (answers : List (Option (Option PathData))) (d : PathData)
    (s : Tracked) (builds : List Build)
    → version ≢ 0
    → find has_path answers ≡ some (some (some d))
    → filter_by_tracked (fetch_tracked jn (some version) (some answers) s).ids builds
      ≡ filter (λ b. any (mentions jn b.id) (or_empty d.path)) builds
unfolding fetch_tracked track filter_by_tracked
tracked_builds_lem jn version answers d s builds n h = elim (Bool-cases (version == 0)) [
  | inl e ↦ absurd (n ((==_iff version 0).0 e))
  | inr e ↦
      rw (e, track_first-find jn answers s, h)
        (filter-same (λ b. contains (path_ids jn (or_empty d.path)) b.id)
          (λ b. any (mentions jn b.id) (or_empty d.path)) builds
          (λ b. contains-path_ids jn b.id (or_empty d.path)))
]
