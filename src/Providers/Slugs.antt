-- ===== src/Providers/Slugs.antt =====
-- What `slugify` makes, and what it keeps.
use pikoci.Base.{
  ℕ, Bool, true, false, [], ◌∷◌, if◌then◌else◌, ◌==◌, number_equality, ◌≡◌, ◌≢◌, ◌⊎◌, inl, inr,
  refl, ap, ◌∙◌, arith, Bool-cases,
}
use pikoci.Text.{Chars}
use pikoci.Providers.Slug.{is_plain, dash_runs, strip_front, strip_back, slugify}

-- Letters and digits with single dashes between them. The flag says that no dash may come next, and
-- that the text may not end.
abbrev pub IsTidy : Bool → Chars → Type 0
IsTidy held [] = held ≡ false
IsTidy held (c ∷ cs) =
    ((is_plain c ≡ true) × IsTidy false cs) ⊎ ((c ≡ b'-') × (held ≡ false) × IsTidy true cs)

abbrev pub IsSlug : Chars → Type 0
IsSlug [] = Unit
IsSlug (c ∷ cs) = IsTidy true (c ∷ cs)

-- The same, but the text may end anywhere.
abbrev IsLoose : Bool → Chars → Type 0
IsLoose held [] = Unit
IsLoose held (c ∷ cs) =
    ((is_plain c ≡ true) × IsLoose false cs) ⊎ ((c ≡ b'-') × (held ≡ false) × IsLoose true cs)

held_dash : (held : Bool) (s : Chars) → IsLoose true s → IsLoose held (if held then s else b'-' ∷ s)
held_dash true s h = h
held_dash false s h = inr (refl, refl, h)

dash_runs-IsLoose : (held : Bool) (s : Chars) → IsLoose held (dash_runs held s)
unfolding dash_runs
dash_runs-IsLoose held [] = tt
dash_runs-IsLoose held (c ∷ cs) = elim (Bool-cases (is_plain c)) [
  | inl e ↦ rw e (inl (e, dash_runs-IsLoose false cs))
  | inr e ↦ rw e (held_dash held (dash_runs true cs) (dash_runs-IsLoose true cs))
]

dash_other : is_plain b'-' ≡ false
unfolding is_plain
dash_other = refl

plain_dash : (c : ℕ) → is_plain c ≡ true → (c == b'-') ≡ false
unfolding is_plain
plain_dash c h = ground (arith, h)

strip_front-IsLoose : (s : Chars) → IsLoose false s → IsLoose true (strip_front s)
unfolding strip_front
strip_front-IsLoose [] h = tt
strip_front-IsLoose (c ∷ cs) (inl (p, h)) = rw (plain_dash c p) (inl (p, h))
strip_front-IsLoose (c ∷ cs) (inr (e, f, h)) = rw e h

strip_back-IsTidy :
    (held : Bool) (s : Chars)
    → IsLoose held s
    → (held ≡ false) ⊎ (s ≢ [])
    → IsTidy held (strip_back s)
unfolding strip_back
strip_back-IsTidy held [] h (inl f) = f
strip_back-IsTidy held [] h (inr n) = absurd (n refl)
strip_back-IsTidy held (c ∷ []) (inl (p, h)) k = rw (plain_dash c p) (inl (p, refl))
strip_back-IsTidy held (c ∷ []) (inr (e, f, h)) k = rw e f
strip_back-IsTidy held (c ∷ d ∷ cs) (inl (p, h)) k =
    inl (p, strip_back-IsTidy false (d ∷ cs) h (inl refl))
strip_back-IsTidy held (c ∷ d ∷ cs) (inr (e, f, h)) k =
    inr (e, f, strip_back-IsTidy true (d ∷ cs) h (inr (λ n. cc)))

ended_well : (s : Chars) → IsTidy true s → IsSlug s
ended_well [] h = tt
ended_well (c ∷ cs) h = h

stripped-IsSlug : (s : Chars) → IsLoose true s → IsSlug (strip_back s)
unfolding strip_back
stripped-IsSlug [] h = tt
stripped-IsSlug (c ∷ cs) h =
    ended_well (strip_back (c ∷ cs)) (strip_back-IsTidy true (c ∷ cs) h (inr (λ n. cc)))

dash_runs_tidy : (held : Bool) (s : Chars) → IsTidy held s → dash_runs held s ≡ s
unfolding dash_runs
dash_runs_tidy held [] h = refl
dash_runs_tidy held (c ∷ cs) (inl (p, h)) = rw (p, dash_runs_tidy false cs h) refl
dash_runs_tidy held (c ∷ cs) (inr (e, f, h)) = rw (e, f, dash_other, dash_runs_tidy true cs h) refl

strip_back_tidy : (held : Bool) (s : Chars) → IsTidy held s → strip_back s ≡ s
unfolding strip_back
strip_back_tidy held [] h = refl
strip_back_tidy held (c ∷ []) (inl (p, h)) = rw (plain_dash c p) refl
strip_back_tidy held (c ∷ []) (inr (e, f, h)) = cc
strip_back_tidy held (c ∷ d ∷ cs) (inl (p, h)) = ap (λ r. c ∷ r) (strip_back_tidy false (d ∷ cs) h)
strip_back_tidy held (c ∷ d ∷ cs) (inr (e, f, h)) =
    ap (λ r. c ∷ r) (strip_back_tidy true (d ∷ cs) h)

slug_kept : (s : Chars) → IsSlug s → strip_back (strip_front (dash_runs false s)) ≡ s
unfolding dash_runs strip_front strip_back
slug_kept [] h = refl
slug_kept (c ∷ cs) (inl (p, h)) =
    rw (p, dash_runs_tidy false cs h, plain_dash c p) (strip_back_tidy true (c ∷ cs) (inl (p, h)))
slug_kept (c ∷ cs) (inr (e, f, h)) = cc

-- If the lower case of a slug is that slug, then `slugify` makes a slug of every text: lower
-- letters and digits with single dashes between them; and it keeps every slug.
pub slugify-IsSlug :
    (lower : Chars → Chars)
    → ((s : Chars) → IsSlug s → lower s ≡ s)
    → (s : Chars) → IsSlug (slugify lower s) × (IsSlug s → slugify lower s ≡ s)
unfolding slugify
slugify-IsSlug lower law s = (
  stripped-IsSlug _ (strip_front-IsLoose _ (dash_runs-IsLoose false (lower s))),
  λ h. ap (λ t. strip_back (strip_front (dash_runs false t))) (law s h) ∙ slug_kept s h,
)
