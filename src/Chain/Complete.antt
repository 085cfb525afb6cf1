-- ===== src/Chain/Complete.antt =====
-- `resolveChain` computes the jobs that the resource reaches, each once.
use mathlib.Core.List.{Memᴰ, append-nil, append_assoc}
use mathlib.Core.Path.{subst}
use pikoci.Base.{
  ℕ, zero, suc, ◌≤◌, String, true, false, List, [], ◌∷◌, ◌++◌, ◌≡◌, refl, sym, arith, or_empty, any,
  contains, contains-concat, text_equality, ==_iff, length, All, All_append_right, All_of_contains,
  List-cases, IsDistinct, Bool-cases, inl, inr, ◌↔◌, ap, ◌∙◌,
}
use pikoci.JsObject.{is_set, is_inherited}
use pikoci.Chain.{
  Job, Pipeline, Search, no_search, enters, follows, enter_jobs, visit_jobs, take_next, search_from,
  resolve_search, resolve_chain,
}
use pikoci.Chain.Reach.{Reach, entry, passed, IsPlain, unvisited}
use pikoci.Chain.Visits.{
  is_set_of_Enqueues, chain_of_Enqueues, IsValid, Enqueues-IsValid, measure, measure_of_Enqueues,
}
use pikoci.Chain.Rounds.{
  Enq, enter_jobs-Enqueues, is_set-enter_jobs, visit_jobs-Enqueues, is_set-visit_jobs,
}

module _ (jobs : List Job) (resource : String) where
  -- What holds between two rounds of the search.
  record Inv (s : Search) : Type 0 where
    valid : IsValid (Reach jobs resource) s
    entered :
        (j : Job)
        → Memᴰ j jobs
        → any (enters resource) (or_empty j.plan) ≡ true
        → is_set s.visited j.name ≡ true
    closed :
        (m : String)
        → contains s.chain m ≡ true
        → (j : Job) → Memᴰ j jobs
        → any (follows m) (or_empty j.plan) ≡ true
        → is_set s.visited j.name ≡ true

  take_next-IsValid :
      (n : String) (rest : List String) (s : Search)
      → s.queue ≡ n ∷ rest
      → IsValid (Reach jobs resource) s
      → IsValid (Reach jobs resource) (take_next n rest s)
  unfolding take_next
  take_next-IsValid n rest s e v = record {
    split = v.split ∙ ap (λ q. s.chain ++ q) e ∙ sym (append_assoc s.chain (n ∷ []) rest);
    distinct = v.distinct;
    sound = v.sound;
    plain = v.plain;
  }

  Reach-head :
      (n : String) (rest : List String) (s : Search)
      → s.queue ≡ n ∷ rest
      → IsValid (Reach jobs resource) s
      → Reach jobs resource n
  Reach-head n rest s e v =
      (All_append_right (Reach jobs resource) s.chain (n ∷ rest)
        (subst (All (Reach jobs resource)) (v.split ∙ ap (λ q. s.chain ++ q) e) v.sound)).0

  round : String → List String → Search → Search
  round n rest s = visit_jobs n jobs (take_next n rest s)

  round-Enqueues :
      (n : String) (rest : List String) (s : Search)
      → Reach jobs resource n
      → Enq jobs resource (round n rest s) (take_next n rest s)
  unfolding round
  round-Enqueues n rest s r =
      visit_jobs-Enqueues jobs resource n jobs (take_next n rest s) r (λ j m. m)

  round-Inv :
      (n : String) (rest : List String) (s : Search)
      → s.queue ≡ n ∷ rest
      → Inv s
      → Inv (round n rest s)
  unfolding take_next round
  round-Inv n rest s e v = record {
    valid = Enqueues-IsValid enq (take_next-IsValid n rest s e v.valid);
    entered = λ j m h. is_set_of_Enqueues enq j.name (v.entered j m h);
    closed = closed;
  }
    where
      reach : Reach jobs resource n
      reach = Reach-head n rest s e v.valid

      enq : Enq jobs resource (round n rest s) (take_next n rest s)
      enq = round-Enqueues n rest s reach

      closed :
          (m : String)
          → contains (round n rest s).chain m ≡ true
          → (j : Job) → Memᴰ j jobs
          → any (follows m) (or_empty j.plan) ≡ true
          → is_set (round n rest s).visited j.name ≡ true
      closed m c j mem f = elim (Bool-cases (contains s.chain m)) [
        | inl old ↦ is_set_of_Enqueues enq j.name (v.closed m old j mem f)
        | inr new ↦
            is_set-visit_jobs jobs resource n jobs (take_next n rest s) reach (λ i l. l) j mem
              (subst (λ k. any (follows k) (or_empty j.plan) ≡ true) (sym (is_last c new)) f)
      ]
        where
          is_last : contains (round n rest s).chain m ≡ true → contains s.chain m ≡ false → n ≡ m
          is_last c new = ground (
            arith,
            chain_of_Enqueues enq,
            contains-concat s.chain n m,
            ==_iff n m,
            ap (λ l. contains l m) (chain_of_Enqueues enq),
          )

  search_from-Inv : (fuel : ℕ) (s : Search) → Inv s → Inv (search_from fuel jobs s)
  unfolding search_from round measure
  search_from-Inv zero s v = v
  search_from-Inv (suc fuel) s v = elim (List-cases s.queue) [
    | inl e ↦ rw (e, search_from) v
    | inr (n, rest, e) ↦
        rw (e, search_from) (search_from-Inv fuel (round n rest s) (round-Inv n rest s e v))
  ]

  measure-round :
      (n : String) (rest : List String) (s : Search)
      → s.queue ≡ n ∷ rest
      → Inv s
      → suc (measure jobs resource (round n rest s)) ≤ measure jobs resource s
  unfolding measure take_next
  measure-round n rest s e v = omega (
    arith,
    ap length e,
    measure_of_Enqueues jobs resource (round-Enqueues n rest s (Reach-head n rest s e v.valid)),
  )

  -- With as much fuel as the measure the queue is empty in the end.
  search_from-queue :
      (fuel : ℕ) (s : Search)
      → measure jobs resource s ≤ fuel
      → Inv s
      → (search_from fuel jobs s).queue ≡ []
  unfolding search_from round measure
  search_from-queue zero s h v = elim (List-cases s.queue) [
    | inl e ↦ e
    | inr (n, rest, e) ↦ absurd (omega (arith, ap length e))
  ]
  search_from-queue (suc fuel) s h v = elim (List-cases s.queue) [
    | inl e ↦ rw (e, search_from) e
    | inr (n, rest, e) ↦
        rw (e, search_from)
          (search_from-queue fuel (round n rest s) (omega (arith, measure-round n rest s e v))
            (round-Inv n rest s e v))
  ]

  unvisited-le-length : (js : List Job) → unvisited js [] ≤ length js
  unfolding unvisited
  unvisited-le-length [] = omega arith
  unvisited-le-length (j ∷ js) = ground (arith, unvisited-le-length js)

  abbrev entered_search : Search
  entered_search = enter_jobs resource jobs no_search

  enq : Enq jobs resource entered_search no_search
  enq = enter_jobs-Enqueues jobs resource jobs no_search (λ j m. m)

  entered-Inv : Inv entered_search
  unfolding contains
  entered-Inv = record {
    valid = Enqueues-IsValid enq (record { split = refl; distinct = tt; sound = tt; plain = tt });
    entered = is_set-enter_jobs jobs resource jobs no_search (λ j m. m);
    closed = λ m c. cc (ap (λ l. contains l m) (chain_of_Enqueues enq));
  }

  entered-measure : measure jobs resource entered_search ≤ length jobs
  unfolding measure
  entered-measure = omega (arith, measure_of_Enqueues jobs resource enq, unvisited-le-length jobs)

  -- The names set are those of the chain once the queue is empty.
  visited-eq-chain : (s : Search) → Inv s → s.queue ≡ [] → s.visited ≡ s.chain
  visited-eq-chain s v e = v.valid.split ∙ ap (λ q. s.chain ++ q) e ∙ append-nil s.chain

  is_plain : (js : List Job) → All IsPlain js → (j : Job) → Memᴰ j js → is_inherited j.name ≡ false
  is_plain [] h j m = elim m [ ]
  is_plain (i ∷ js) h j (Memᴰ.head e) = subst (λ k. is_inherited k.name ≡ false) (sym e) h.0
  is_plain (i ∷ js) h j (Memᴰ.tail m) = is_plain js h.1 j m

  contains_of_Reach :
      (s : Search)
      → Inv s
      → s.queue ≡ []
      → All IsPlain jobs
      → (n : String) → Reach jobs resource n
      → contains s.chain n ≡ true
  unfolding is_set
  contains_of_Reach s v e plain _ (entry j m h) = ground (
    arith,
    v.entered j m h,
    is_plain jobs plain j m,
    ap (λ l. contains l j.name) (visited-eq-chain s v e),
  )
  contains_of_Reach s v e plain _ (passed {m = k} j r m f) = ground (
    arith,
    v.closed k (contains_of_Reach s v e plain k r) j m f,
    is_plain jobs plain j m,
    ap (λ l. contains l j.name) (visited-eq-chain s v e),
  )

module _ (p : Pipeline) (resource : String) where
  abbrev final : Search
  final = resolve_search p resource

  final-Inv : Inv (or_empty p.jobs) resource final
  unfolding resolve_search
  final-Inv =
      search_from-Inv (or_empty p.jobs) resource (length (or_empty p.jobs)) _
        (entered-Inv (or_empty p.jobs) resource)

  -- The search of `resolveChain` ends with an empty queue: as many rounds as there are jobs are
  -- enough, whatever the pipeline.
  pub resolve_search-queue : final.queue ≡ []
  unfolding resolve_search
  resolve_search-queue =
      search_from-queue (or_empty p.jobs) resource (length (or_empty p.jobs)) _
        (entered-measure (or_empty p.jobs) resource) (entered-Inv (or_empty p.jobs) resource)

  -- No job stands twice in the chain.
  resolve_chain-IsDistinct : IsDistinct (resolve_chain p resource)
  unfolding resolve_chain
  resolve_chain-IsDistinct =
      subst IsDistinct (visited-eq-chain _ _ final final-Inv resolve_search-queue)
        final-Inv.valid.distinct

  resolve_chain_sound : All (Reach (or_empty p.jobs) resource) (resolve_chain p resource)
  unfolding resolve_chain
  resolve_chain_sound =
      subst (All (Reach (or_empty p.jobs) resource))
        (visited-eq-chain _ _ final final-Inv resolve_search-queue) final-Inv.valid.sound

  -- If no job is named as a property that every object inherits, then the chain of a resource
  -- holds exactly the jobs that the resource reaches.
  pub resolve_chain-Reach :
      All IsPlain (or_empty p.jobs)
      → (n : String)
      → (contains (resolve_chain p resource) n ≡ true) ↔ Reach (or_empty p.jobs) resource n
  unfolding resolve_chain
  resolve_chain-Reach plain n = (
    All_of_contains (Reach (or_empty p.jobs) resource) (resolve_chain p resource) n
        resolve_chain_sound,
    contains_of_Reach (or_empty p.jobs) resource final final-Inv resolve_search-queue plain n,
  )

  -- A name that every object inherits never enters the chain, whatever the jobs of that name get.
  resolve_chain-inherited :
      (n : String) → is_inherited n ≡ true → contains (resolve_chain p resource) n ≡ false
  unfolding resolve_chain
  resolve_chain-inherited n h = elim (Bool-cases (contains (resolve_chain p resource) n)) [
    | inl c ↦ cc (
      h,
      All_of_contains (λ m. is_inherited m ≡ false) final.chain n
          (subst (All (λ m. is_inherited m ≡ false))
            (visited-eq-chain _ _ final final-Inv resolve_search-queue) final-Inv.valid.plain)
          c,
    )
    | inr c ↦ c
  ]
