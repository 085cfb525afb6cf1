-- ===== src/Chain/Reach.antt =====
-- What the chain of a resource is meant to be: the jobs that get the resource directly, and those
-- that get something passed by a job of the chain.
use mathlib.Core.List.{Memᴰ}
use pikoci.Base.{
  ℕ, ◌≤◌, suc, String, true, false, List, [], ◌∷◌, ◌++◌, ◌≡◌, arith, or_empty, any, contains-concat,
  text_equality, ==_iff, if◌then◌else◌,
}
use pikoci.JsObject.{is_set, is_inherited}
use pikoci.Chain.{Job, enters, follows}

pub data Reach (jobs : List Job) (resource : String) : String → Type 0 where
  entry :
      (j : Job)
      → Memᴰ j jobs
      → any (enters resource) (or_empty j.plan) ≡ true
      → Reach jobs resource j.name
  passed :
      {m : String} (j : Job)
      → Reach jobs resource m
      → Memᴰ j jobs
      → any (follows m) (or_empty j.plan) ≡ true
      → Reach jobs resource j.name

-- A job whose name no object inherits.
abbrev pub IsPlain : Job → Type 0
IsPlain j = is_inherited j.name ≡ false

-- How many jobs are not visited yet.
unfoldable pub unvisited : List Job → List String → ℕ
unvisited [] visited = 0
unvisited (j ∷ jobs) visited =
    if is_set visited j.name then unvisited jobs visited else suc (unvisited jobs visited)

pub unvisited-le :
    (jobs : List Job) (visited : List String) (n : String)
    → unvisited jobs (visited ++ n ∷ []) ≤ unvisited jobs visited
unfolding unvisited is_set
unvisited-le [] visited n = omega arith
unvisited-le (j ∷ jobs) visited n =
    ground (arith, unvisited-le jobs visited n, contains-concat visited n j.name)

-- Visiting a job leaves one job fewer.
pub unvisited-lt :
    (jobs : List Job) (visited : List String) (j : Job)
    → Memᴰ j jobs
    → is_set visited j.name ≡ false
    → suc (unvisited jobs (visited ++ j.name ∷ [])) ≤ unvisited jobs visited
unfolding unvisited is_set
unvisited-lt [] visited j m h = elim m [ ]
unvisited-lt (i ∷ jobs) visited j (Memᴰ.head e) h = ground (
  arith,
  unvisited-le jobs visited j.name,
  contains-concat visited j.name i.name,
  ==_iff j.name i.name,
)
unvisited-lt (i ∷ jobs) visited j (Memᴰ.tail m) h =
    ground (arith, unvisited-lt jobs visited j m h, contains-concat visited j.name i.name)
