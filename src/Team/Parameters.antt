-- ===== src/Team/Parameters.antt =====
-- The parameters of a query, read as filters.
use pikoci.Base.{
  Bool, true, false, List, [], ◌∷◌, ◌++◌, String, ◌≡◌, refl, ap, ◌∙◌, if◌then◌else◌, ◌==◌, ==_refl,
  text_equality, Bool-cases, inl, inr, All,
}
use pikoci.Team.Audit.{Filter, filter_params, time_param}

-- The filters that parameters stand for, by the name for what is kept and that for what is left out.
abbrev pub filters_in : String → String → List (String × String) → List Filter
filters_in name excluded [] = []
filters_in name excluded ((key, value) ∷ params) =
    let rest = filters_in name excluded params in
    if key == name
    then record { value = value; exclude = false } ∷ rest
    else if key == excluded
    then record { value = value; exclude = true } ∷ rest
    else rest

filters_in-append :
    (name excluded : String) (ps qs : List (String × String))
    → filters_in name excluded (ps ++ qs)
      ≡ filters_in name excluded ps ++ filters_in name excluded qs
filters_in-append name excluded [] qs = refl
filters_in-append name excluded ((key, value) ∷ ps) qs = elim (Bool-cases (key == name)) [
  | inl e ↦ rw (e, filters_in-append name excluded ps qs) refl
  | inr e ↦ elim (Bool-cases (key == excluded)) [
    | inl k ↦ rw (e, k, filters_in-append name excluded ps qs) refl
    | inr k ↦ rw (e, k, filters_in-append name excluded ps qs) refl
  ]
]

own_key :
    (name excluded value : String) (exclude : Bool) (ps : List (String × String))
    → (excluded == name) ≡ false
    → filters_in name excluded ((if exclude then excluded else name, value) ∷ ps)
      ≡ record { value = value; exclude = exclude } ∷ filters_in name excluded ps
own_key name excluded value true ps h = rw (h, ==_refl excluded) refl
own_key name excluded value false ps h = rw (==_refl name) refl

pub own_filters :
    (name excluded : String) (fs : List Filter)
    → (excluded == name) ≡ false
    → filters_in name excluded (filter_params name excluded fs) ≡ fs
unfolding filter_params
own_filters name excluded [] h = refl
own_filters name excluded (f ∷ fs) h =
    own_key name excluded f.value f.exclude (filter_params name excluded fs) h
    ∙ ap (λ rest. f ∷ rest) (own_filters name excluded fs h)

-- A name stands for no filter of a kind.
abbrev pub IsForeign : String → String → String → Type 0
IsForeign name excluded key = ((key == name) ≡ false) × ((key == excluded) ≡ false)

foreign_key :
    (name excluded key value : String) (ps : List (String × String))
    → IsForeign name excluded key
    → filters_in name excluded ((key, value) ∷ ps) ≡ filters_in name excluded ps
foreign_key name excluded key value ps (h, k) = rw (h, k) refl

pub foreign_filters :
    (name excluded a b : String) (fs : List Filter)
    → IsForeign name excluded a
    → IsForeign name excluded b
    → filters_in name excluded (filter_params a b fs) ≡ []
unfolding filter_params
foreign_filters name excluded a b [] h k = refl
foreign_filters name excluded a b (f ∷ fs) h k =
    foreign_key name excluded (if f.exclude then b else a) f.value (filter_params a b fs)
      (either_key f.exclude)
    ∙ foreign_filters name excluded a b fs h k
  where
    either_key : (x : Bool) → IsForeign name excluded (if x then b else a)
    either_key true = k
    either_key false = h

pub foreign_time :
    (name excluded : String) (iso : String → String) (key time : String)
    → IsForeign name excluded key
    → filters_in name excluded (time_param iso key time) ≡ []
unfolding time_param
foreign_time name excluded iso key time h = elim (Bool-cases (time == "")) [
  | inl e ↦ rw e refl
  | inr e ↦ rw e (foreign_key name excluded key (iso time) [] h)
]

-- Filters of pipelines are never turned round.
abbrev pub IsKept : Filter → Type 0
IsKept f = f.exclude ≡ false

kept_key :
    (value : String) (exclude : Bool) (ps : List (String × String))
    → exclude ≡ false
    → filters_in "pipeline" "" ((if exclude then "pipeline" else "pipeline", value) ∷ ps)
      ≡ record { value = value; exclude = exclude } ∷ filters_in "pipeline" "" ps
kept_key value true ps h = cc
kept_key value false ps h = refl

pub kept_filters :
    (fs : List Filter)
    → All IsKept fs
    → filters_in "pipeline" "" (filter_params "pipeline" "pipeline" fs) ≡ fs
unfolding filter_params
kept_filters [] h = refl
kept_filters (f ∷ fs) h =
    kept_key f.value f.exclude (filter_params "pipeline" "pipeline" fs) h.0
    ∙ ap (λ rest. f ∷ rest) (kept_filters fs h.1)

-- The five parts of the parameters.
pub in_parts :
    (name excluded : String) (a b c d e : List (String × String))
    → filters_in name excluded (a ++ (b ++ (c ++ (d ++ e))))
      ≡ filters_in name excluded a
        ++ (filters_in name excluded b
            ++ (filters_in name excluded c
                ++ (filters_in name excluded d ++ filters_in name excluded e)))
in_parts name excluded a b c d e =
    rw
      (
        filters_in-append name excluded a (b ++ (c ++ (d ++ e))),
        filters_in-append name excluded b (c ++ (d ++ e)),
        filters_in-append name excluded c (d ++ e),
        filters_in-append name excluded d e,
      )
      refl
