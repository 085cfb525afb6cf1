-- ===== src/Chain/Rounds.antt =====
-- The two loops over the jobs in `resolveChain`: they enqueue jobs that the resource reaches, and
-- leave no job behind that they are to enqueue.
use mathlib.Core.List.{Memᴰ}
use pikoci.Base.{
  String, true, not, ◌&&◌, List, [], ◌∷◌, ◌≡◌, refl, arith, or_empty, any, contains-concat,
  text_equality, ==_refl, Bool-cases, inl, inr,
}
use pikoci.JsObject.{is_set}
use pikoci.Chain.{
  Job, PlanStep, Search, enqueue, enters, follows, enter_plan, enter_jobs, visit_job, visit_jobs,
}
use pikoci.Chain.Reach.{Reach, entry, passed}
use pikoci.Chain.Visits.{Enqueues, done, more, Enqueues-trans, is_set_of_Enqueues}

is_set-enqueue : (n : String) (s : Search) → is_set (enqueue n s).visited n ≡ true
unfolding enqueue is_set
is_set-enqueue n s = ground (arith, contains-concat s.visited n n, ==_refl n)

module _ (jobs : List Job) (resource : String) where
  abbrev pub Enq : Search → Search → Type 0
  Enq t s = Enqueues (Reach jobs resource) t s

  pub enter_plan-Enqueues :
      (n : String) (plan : List PlanStep) (s : Search)
      → (any (enters resource) plan ≡ true → Reach jobs resource n)
      → Enq (enter_plan resource n plan s) s
  unfolding enter_plan
  enter_plan-Enqueues n [] s reach = done
  enter_plan-Enqueues n (p ∷ plan) s reach =
      elim (Bool-cases (enters resource p && not (is_set s.visited n))) [
        | inl e ↦ rw e (
            more n (ground arith) (reach (ground arith))
              (enter_plan-Enqueues n plan (enqueue n s) (λ h. reach (ground arith))))
        | inr e ↦ rw e (enter_plan-Enqueues n plan s (λ h. reach (ground arith)))
      ]

  -- A job with an entering step is visited, if not by this loop then before.
  pub is_set-enter_plan :
      (n : String) (plan : List PlanStep) (s : Search)
      → (any (enters resource) plan ≡ true → Reach jobs resource n)
      → any (enters resource) plan ≡ true
      → is_set (enter_plan resource n plan s).visited n ≡ true
  unfolding enter_plan
  is_set-enter_plan n [] s reach h = cc
  is_set-enter_plan n (p ∷ plan) s reach h =
      elim (Bool-cases (enters resource p && not (is_set s.visited n))) [
        | inl e ↦
            rw (e, enter_plan)
              (is_set_of_Enqueues
                (enter_plan-Enqueues n plan (enqueue n s) (λ k. reach (ground arith))) n
                (is_set-enqueue n s))
        | inr e ↦
            rw (e, enter_plan)
              (elim (Bool-cases (is_set s.visited n)) [
                | inl v ↦
                    is_set_of_Enqueues (enter_plan-Enqueues n plan s (λ k. reach (ground arith))) n
                      v
                | inr v ↦ is_set-enter_plan n plan s (λ k. reach (ground arith)) (ground arith)
              ])
      ]

  pub enter_jobs-Enqueues :
      (js : List Job) (s : Search)
      → ((j : Job) → Memᴰ j js → Memᴰ j jobs)
      → Enq (enter_jobs resource js s) s
  unfolding enter_jobs
  enter_jobs-Enqueues [] s sub = done
  enter_jobs-Enqueues (j ∷ js) s sub =
      Enqueues-trans
        (enter_plan-Enqueues j.name (or_empty j.plan) s (λ h. entry j (sub j (Memᴰ.head refl)) h))
        (enter_jobs-Enqueues js (enter_plan resource j.name (or_empty j.plan) s)
          (λ i m. sub i (Memᴰ.tail m)))

  pub is_set-enter_jobs :
      (js : List Job) (s : Search)
      → ((j : Job) → Memᴰ j js → Memᴰ j jobs)
      → (j : Job) → Memᴰ j js
      → any (enters resource) (or_empty j.plan) ≡ true
      → is_set (enter_jobs resource js s).visited j.name ≡ true
  unfolding enter_jobs
  is_set-enter_jobs [] s sub j m h = elim m [ ]
  is_set-enter_jobs (i ∷ js) s sub j (Memᴰ.head e) h =
      is_set_of_Enqueues
        (enter_jobs-Enqueues js (enter_plan resource i.name (or_empty i.plan) s)
          (λ k m. sub k (Memᴰ.tail m)))
        j.name
        (rw e (
          is_set-enter_plan i.name (or_empty i.plan) s (λ k. entry i (sub i (Memᴰ.head refl)) k)
            (rw (← e) h)))
  is_set-enter_jobs (i ∷ js) s sub j (Memᴰ.tail m) h =
      is_set-enter_jobs js (enter_plan resource i.name (or_empty i.plan) s)
        (λ k l. sub k (Memᴰ.tail l)) j m h

  pub visit_job-Enqueues :
      (n : String) (j : Job) (s : Search)
      → Reach jobs resource n
      → Memᴰ j jobs
      → Enq (visit_job n j s) s
  unfolding visit_job
  visit_job-Enqueues n j s r m = elim (Bool-cases (is_set s.visited j.name)) [
    | inl v ↦ rw v done
    | inr v ↦ rw v (elim (Bool-cases (any (follows n) (or_empty j.plan))) [
      | inl f ↦ rw f (more j.name v (passed j r m f) done)
      | inr f ↦ rw f done
    ])
  ]

  pub is_set-visit_job :
      (n : String) (j : Job) (s : Search)
      → any (follows n) (or_empty j.plan) ≡ true
      → is_set (visit_job n j s).visited j.name ≡ true
  unfolding visit_job
  is_set-visit_job n j s f = elim (Bool-cases (is_set s.visited j.name)) [
    | inl v ↦ rw (v, visit_job) v
    | inr v ↦ rw (v, visit_job) (rw f (is_set-enqueue j.name s))
  ]

  pub visit_jobs-Enqueues :
      (n : String) (js : List Job) (s : Search)
      → Reach jobs resource n
      → ((j : Job) → Memᴰ j js → Memᴰ j jobs)
      → Enq (visit_jobs n js s) s
  unfolding visit_jobs
  visit_jobs-Enqueues n [] s r sub = done
  visit_jobs-Enqueues n (j ∷ js) s r sub =
      Enqueues-trans (visit_job-Enqueues n j s r (sub j (Memᴰ.head refl)))
        (visit_jobs-Enqueues n js (visit_job n j s) r (λ i m. sub i (Memᴰ.tail m)))

  pub is_set-visit_jobs :
      (n : String) (js : List Job) (s : Search)
      → Reach jobs resource n
      → ((j : Job) → Memᴰ j js → Memᴰ j jobs)
      → (j : Job) → Memᴰ j js
      → any (follows n) (or_empty j.plan) ≡ true
      → is_set (visit_jobs n js s).visited j.name ≡ true
  unfolding visit_jobs
  is_set-visit_jobs n [] s r sub j m f = elim m [ ]
  is_set-visit_jobs n (i ∷ js) s r sub j (Memᴰ.head e) f =
      is_set_of_Enqueues (visit_jobs-Enqueues n js (visit_job n i s) r (λ k m. sub k (Memᴰ.tail m)))
        j.name (rw e (is_set-visit_job n i s (rw (← e) f)))
  is_set-visit_jobs n (i ∷ js) s r sub j (Memᴰ.tail m) f =
      is_set-visit_jobs n js (visit_job n i s) r (λ k l. sub k (Memᴰ.tail l)) j m f
