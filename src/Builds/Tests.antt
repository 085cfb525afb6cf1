-- ===== src/Builds/Tests.antt =====
-- Runs of `sortBuilds` and `selectActiveBuild`, and their theorems at these lists.
use mathlib.Core.List.{Perm}
use pikoci.Base.{ℕ, String, ◌≢◌, All, none, some, List, [], ◌∷◌, ◌≡◌, refl, number_equality}
use pikoci.Text.{Chars, codes, split, to_number, digits_from}
use pikoci.Sort.{sort, insert}
use pikoci.Builds.{
  Build, number_text, key_of, key_of_parts, key_before, build_before, sort_builds, first_active,
  select_active_build,
}
use pikoci.Builds.Order.{sort_builds_unnumbered}
use pikoci.Builds.Numbers.{IsVersioned, IsFalling, whole, dotted, sort_builds-IsFalling}
use pikoci.Builds.Samples.{build, numbered}

abbrev releases : List Build
releases = numbered 1 "1.2" ∷ numbered 2 "2" ∷ numbered 3 "1.10" ∷ numbered 4 "10.1" ∷ []

sorted_releases :
    sort_builds releases
    ≡ numbered 4 "10.1" ∷ numbered 2 "2" ∷ numbered 3 "1.10" ∷ numbered 1 "1.2" ∷ []
unfolding sort_builds sort insert build_before key_before key_of key_of_parts number_text split
    to_number digits_from
sorted_releases = refl

release :
    (id : ℕ) (s : String) (p q : Chars) (major minor : ℕ)
    → s ≢ ""
    → split b'.' (codes s) ≡ p ∷ q ∷ []
    → to_number p ≡ some major
    → to_number q ≡ some minor
    → IsVersioned (numbered id s)
release id s p q major minor ne f g h = (major, minor, dotted s p q [] major minor refl ne f g h)

releases-IsVersioned : All IsVersioned releases
unfolding split to_number digits_from
releases-IsVersioned = (
  release 1 "1.2" (codes "1") (codes "2") 1 2 (λ e. cc) refl refl refl,
  (
    (2, 0, whole "2" (codes "2") 2 refl (λ e. cc) refl refl),
    (
      release 3 "1.10" (codes "1") (codes "10") 1 10 (λ e. cc) refl refl refl,
      (release 4 "10.1" (codes "10") (codes "1") 10 1 (λ e. cc) refl refl refl, tt),
    ),
  ),
)

sort_builds-IsFalling_example :
    Perm (sort_builds releases) releases × IsFalling (sort_builds releases)
sort_builds-IsFalling_example = sort_builds-IsFalling releases releases-IsVersioned

-- As the server sends them: `number` is missing, and nothing is sorted.
abbrev sent : List Build
sent = build 1 "1" "succeeded" ∷ build 3 "3" "pending" ∷ build 2 "2" "started" ∷ []

selected : select_active_build sent none ≡ some (build 3 "3" "pending")
unfolding select_active_build first_active
selected = refl

sort_builds_unnumbered_example : sort_builds sent ≡ sent
sort_builds_unnumbered_example = sort_builds_unnumbered sent (refl, (refl, (refl, tt)))
