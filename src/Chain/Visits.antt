-- ===== src/Chain/Visits.antt =====
-- The loops of `resolveChain` only ever enqueue jobs that were not visited: what that keeps.
use mathlib.Core.List.{append_assoc}
use pikoci.Base.{
  ℕ, ◌+◌, ◌≤◌, suc, String, true, false, List, [], ◌∷◌, ◌++◌, ◌≡◌, refl, arith, contains-concat,
  text_equality, length, length-append, All, All-append, IsDistinct, IsDistinct-concat, ap, ◌∙◌,
}
use pikoci.JsObject.{is_set, is_inherited}
use pikoci.Chain.{Job, Search, enqueue}
use pikoci.Chain.Reach.{Reach, entry, passed, unvisited, unvisited-lt}

-- From the one state to the other by enqueueing new jobs, all of which satisfy `P`.
pub data Enqueues (P : String → Type 0) (t : Search) : Search → Type 0 where
  done : Enqueues P t t
  more :
      (n : String) {s : Search}
      → is_set s.visited n ≡ false
      → P n
      → Enqueues P t (enqueue n s)
      → Enqueues P t s

pub Enqueues-trans :
    {P : String → Type 0} {u t s : Search} → Enqueues P t s → Enqueues P u t → Enqueues P u s
Enqueues-trans done r = r
Enqueues-trans (more n new p q) r = more n new p (Enqueues-trans q r)

-- What is set stays set.
pub is_set-concat :
    (visited : List String) (n m : String)
    → is_set visited m ≡ true
    → is_set (visited ++ n ∷ []) m ≡ true
unfolding is_set
is_set-concat visited n m h = ground (arith, contains-concat visited n m)

pub is_set_of_Enqueues :
    {P : String → Type 0} {t s : Search}
    → Enqueues P t s
    → (m : String) → is_set s.visited m ≡ true
    → is_set t.visited m ≡ true
unfolding enqueue
is_set_of_Enqueues done m h = h
is_set_of_Enqueues (more n {s} new p q) m h = is_set_of_Enqueues q m (is_set-concat s.visited n m h)

pub chain_of_Enqueues : {P : String → Type 0} {t s : Search} → Enqueues P t s → t.chain ≡ s.chain
unfolding enqueue
chain_of_Enqueues done = refl
chain_of_Enqueues (more n new p q) = chain_of_Enqueues q

-- What holds of the state throughout.
pub record IsValid (P : String → Type 0) (s : Search) : Type 0 where
  pub split : s.visited ≡ s.chain ++ s.queue
  pub distinct : IsDistinct s.visited
  pub sound : All P s.visited
  pub plain : All (λ n. is_inherited n ≡ false) s.visited

enqueue-IsValid :
    {P : String → Type 0} (n : String) (s : Search)
    → is_set s.visited n ≡ false
    → P n
    → IsValid P s
    → IsValid P (enqueue n s)
unfolding enqueue is_set
enqueue-IsValid {P} n s new p v = record {
  split = ap (λ l. l ++ n ∷ []) v.split ∙ append_assoc s.chain s.queue (n ∷ []);
  distinct = IsDistinct-concat s.visited n v.distinct (ground arith);
  sound = All-append P s.visited (n ∷ []) v.sound (p, tt);
  plain = All-append (λ m. is_inherited m ≡ false) s.visited (n ∷ []) v.plain (ground arith, tt);
}

pub Enqueues-IsValid :
    {P : String → Type 0} {t s : Search} → Enqueues P t s → IsValid P s → IsValid P t
Enqueues-IsValid done v = v
Enqueues-IsValid (more n {s} new p q) v = Enqueues-IsValid q (enqueue-IsValid n s new p v)

module _ (jobs : List Job) (resource : String) where
  -- The rounds that a state may still take.
  unfoldable pub measure : Search → ℕ
  measure s = length s.queue + unvisited jobs s.visited

  unvisited-lt_of_Reach :
      (visited : List String) {n : String}
      → Reach jobs resource n
      → is_set visited n ≡ false
      → suc (unvisited jobs (visited ++ n ∷ [])) ≤ unvisited jobs visited
  unvisited-lt_of_Reach visited (entry j m h) new = unvisited-lt jobs visited j m new
  unvisited-lt_of_Reach visited (passed j r m h) new = unvisited-lt jobs visited j m new

  pub measure_of_Enqueues :
      {t s : Search} → Enqueues (Reach jobs resource) t s → measure t ≤ measure s
  unfolding measure enqueue
  measure_of_Enqueues done = omega arith
  measure_of_Enqueues (more n {s} new p q) = omega (
    arith,
    measure_of_Enqueues q,
    unvisited-lt_of_Reach s.visited p new,
    length-append s.queue (n ∷ []),
  )
