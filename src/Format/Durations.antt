-- ===== src/Format/Durations.antt =====
-- A duration that is shown can be read back to the second (utils.js).
use pikoci.Base.{
  ℕ, ◌+◌, ◌*◌, ◌/◌, ◌<◌, ◌≡◌, refl, sym, ap, ◌∙◌, inl, inr, some, [], ◌∷◌, All, length, ◌==◌,
  ==_iff, number_equality, Bool-cases, arith,
}
use pikoci.Text.{Chars, codes, split, to_number, digits_from}
use pikoci.Text.Split.{HasNo, split-part, split-last}
use pikoci.Format.{second, pad, hours_of, minutes_of, seconds_of, duration_to_string}

-- How JavaScript writes a number: it is read back, and has no colon.
abbrev pub IsPrinted : (ℕ → Chars) → ℕ → Type 0
IsPrinted show n = (to_number (show n) ≡ some n) × HasNo b':' (show n)

-- The numbers that a duration is written with.
abbrev pub IsPrintable : (ℕ → Chars) → ℕ → Type 0
IsPrintable show d = All (IsPrinted show) (hours_of d ∷ minutes_of d ∷ seconds_of d ∷ [])

pad-to_number : (show : ℕ → Chars) (n : ℕ) → IsPrinted show n → to_number (pad show n) ≡ some n
unfolding pad to_number digits_from
pad-to_number show n p = elim (Bool-cases (n == 0)) [
  | inl e ↦ rw e (ap some (sym ((==_iff n 0).0 e)))
  | inr e ↦ elim (Bool-cases (length (show n) == 1)) [
    | inl k ↦ rw (e, k) (p.0)
    | inr k ↦ rw (e, k) (p.0)
  ]
]

pad-HasNo : (show : ℕ → Chars) (n : ℕ) → IsPrinted show n → HasNo b':' (pad show n)
unfolding pad
pad-HasNo show n p = elim (Bool-cases (n == 0)) [
  | inl e ↦ rw e (ground arith)
  | inr e ↦ elim (Bool-cases (length (show n) == 1)) [
    | inl k ↦ rw (e, k) ((λ q. ground (arith, q)), p.1)
    | inr k ↦ rw (e, k) (p.1)
  ]
]

-- The text has three parts: hours, minutes and seconds.
abbrev pub IsClock : Chars → ℕ → ℕ → ℕ → Type 0
IsClock text h m s =
    (a : Chars) × (b : Chars) × (c : Chars) × (split b':' text ≡ a ∷ b ∷ c ∷ [])
    × (to_number a ≡ some h)
    × (to_number b ≡ some m)
    × (to_number c ≡ some s)

zero-IsClock :
    (show : ℕ → Chars)
    → IsClock (duration_to_string show 0) (hours_of 0) (minutes_of 0) (seconds_of 0)
unfolding duration_to_string hours_of minutes_of seconds_of split to_number digits_from
zero-IsClock show = (codes "00", codes "00", codes "00", refl, refl, refl, refl)

duration-IsClock :
    (show : ℕ → Chars) (d : ℕ)
    → IsPrintable show d
    → IsClock (duration_to_string show d) (hours_of d) (minutes_of d) (seconds_of d)
unfolding duration_to_string
duration-IsClock show d (p, (q, (r, u))) = elim (Bool-cases (d == 0)) [
  | inl e ↦ rw ((==_iff d 0).0 e) (zero-IsClock show)
  | inr e ↦ rw e (
    pad show (hours_of d),
    pad show (minutes_of d),
    pad show (seconds_of d),
    split-part b':' (pad show (hours_of d)) _ (pad-HasNo show (hours_of d) p)
        ∙ ap (λ q. pad show (hours_of d) ∷ q)
            (split-part b':' (pad show (minutes_of d)) _ (pad-HasNo show (minutes_of d) q)
              ∙ ap (λ q. pad show (minutes_of d) ∷ q)
                  (split-last b':' (pad show (seconds_of d)) (pad-HasNo show (seconds_of d) r))),
    pad-to_number show (hours_of d) p,
    pad-to_number show (minutes_of d) q,
    pad-to_number show (seconds_of d) r,
  )
]

times_of :
    (d : ℕ)
    → (minutes_of d < 60)
      × (seconds_of d < 60)
      × (hours_of d * 3600 + minutes_of d * 60 + seconds_of d ≡ d / second)
unfolding hours_of minutes_of seconds_of
times_of d = (omega arith, omega arith, omega arith)

-- If the hours, minutes and seconds of a duration are printed so that they read back and have no
-- colon, then the text of the duration splits at its colons into three numbers, of which the
-- minutes and the seconds are below sixty and which together are the whole seconds of the
-- duration.
duration_reads_back :
    (show : ℕ → Chars) (d : ℕ)
    → IsPrintable show d
    → (h : ℕ) × (m : ℕ) × (s : ℕ) × IsClock (duration_to_string show d) h m s
      × (m < 60)
      × (s < 60)
      × (h * 3600 + m * 60 + s ≡ d / second)
duration_reads_back show d p = (
  hours_of d,
  minutes_of d,
  seconds_of d,
  duration-IsClock show d p,
  (times_of d).0,
  (times_of d).1,
  (times_of d).2,
)
