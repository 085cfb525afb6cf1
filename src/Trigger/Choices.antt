-- ===== src/Trigger/Choices.antt =====
-- The boxes of an input with several options.
use pikoci.Base.{
  Bool, true, false, not, List, [], ◌∷◌, ◌++◌, filter, ◌≡◌, refl, ap, ◌∙◌, arith, All, All-append,
  contains, contains-concat, contains-filter, ◌==◌, if◌then◌else◌, number_equality, Bool-cases, inl,
  inr,
}
use pikoci.Text.{Chars, split, join, same_chars, chars_equality}
use pikoci.Text.Split.{HasNo, split-join, split-HasNo}
use pikoci.Trigger.{is_blank, choices, toggle_choice, is_checked}

HasNo-filter :
    (p : Chars → Bool) (xs : List Chars) → All (HasNo b',') xs → All (HasNo b',') (filter p xs)
HasNo-filter p [] h = tt
HasNo-filter p (x ∷ xs) h = elim (Bool-cases (p x)) [
  | inl e ↦ rw e (h.0, HasNo-filter p xs h.1)
  | inr e ↦ rw e (HasNo-filter p xs h.1)
]

choices-HasNo : (v : Chars) → All (HasNo b',') (choices v)
unfolding choices
choices-HasNo v = HasNo-filter (λ c. not (is_blank c)) (split b',' v) (split-HasNo b',' v)

blank_box : (o : Chars) → is_blank o ≡ false → contains (split b',' []) o ≡ false
unfolding is_blank contains split same_chars
blank_box [] e = cc
blank_box (c ∷ cs) e = refl

-- The boxes read the texts that were joined.
joined-is_checked :
    (o : Chars) (xs : List Chars)
    → is_blank o ≡ false
    → All (HasNo b',') xs
    → is_checked o (join b',' xs) ≡ contains xs o
unfolding is_checked contains join
joined-is_checked o [] e h = blank_box o e
joined-is_checked o (x ∷ xs) e h = ap (λ l. contains l o) (split-join b',' x xs h.0 h.1)

choices-contains : (o v : Chars) → is_blank o ≡ false → contains (choices v) o ≡ is_checked o v
unfolding choices is_checked
choices-contains o v e =
    contains-filter (λ c. not (is_blank c)) (split b',' v) o ∙ ground (arith, e)

-- After the box of an option without a comma was changed, this box shows what was chosen, and the
-- box of every other option that is not empty shows what it showed before.
toggle_choice-is_checked :
    (o c v : Chars) (checked : Bool)
    → is_blank o ≡ false
    → HasNo b',' c
    → is_checked o (toggle_choice c checked v) ≡ (if o == c then checked else is_checked o v)
unfolding toggle_choice
toggle_choice-is_checked o c v true e n =
    joined-is_checked o (choices v ++ c ∷ []) e
      (All-append (HasNo b',') (choices v) (c ∷ []) (choices-HasNo v) (n, tt))
    ∙ ground (
      arith,
      contains-concat (choices v) c o,
      choices-contains o v e,
      chars_equality.same_iff o c,
      chars_equality.same_iff c o,
    )
toggle_choice-is_checked o c v false e n =
    joined-is_checked o (filter (λ d. not (d == c)) (choices v)) e
      (HasNo-filter (λ d. not (d == c)) (choices v) (choices-HasNo v))
    ∙ ground (arith, contains-filter (λ d. not (d == c)) (choices v) o, choices-contains o v e)
