-- ===== src/Secrets/Adding.antt =====
-- What the row that adds an entry sends (components/Secrets.js).
use pikoci.Base.{
  ℕ, String, true, false, ◌||◌, ◌≡◌, ◌≢◌, ◌⊎◌, refl, sym, ap, ◌∙◌, inl, inr, List, [], ◌∷◌, all,
  contains, text_equality, number_equality, ◌==◌, ==_iff, Bool-cases, arith, none, some,
}
use pikoci.Text.{codes, is_digit, Chars}
use pikoci.Endpoints.Paths.{HasNoSlash}
use pikoci.Secrets.{
  Entry, NewEntry, Addition, addition, is_first, is_name, is_taken, canonicals, can_save, submit,
}

slash_is_no_word : (c : ℕ) → (is_first c || is_digit c) ≡ true → c ≢ b'/'
unfolding is_first
slash_is_no_word c h e = absurd (ground (arith, ap (λ d. is_first d || is_digit d) (sym e) ∙ h))

is_word-HasNoSlash : (cs : Chars) → all (λ d. is_first d || is_digit d) cs ≡ true → HasNoSlash cs
is_word-HasNoSlash [] h = tt
is_word-HasNoSlash (c ∷ cs) h =
    (slash_is_no_word c (ground (arith, h)), is_word-HasNoSlash cs (ground (arith, h)))

-- A valid name can stand in an address as it is.
is_name-HasNoSlash : (name : Chars) → is_name name ≡ true → HasNoSlash name
unfolding is_name
is_name-HasNoSlash [] h = tt
is_name-HasNoSlash (c ∷ cs) h =
    (slash_is_no_word c (ground (arith, h)), is_word-HasNoSlash cs (ground (arith, h)))

is_taken-contains : (es : List Entry) (n : String) → is_taken es n ≡ contains (canonicals es) n
unfolding canonicals contains is_taken
is_taken-contains [] n = refl
is_taken-contains (e ∷ es) n = ap (λ b. e.canonical == n || b) (is_taken-contains es n)

-- A second press finds `saving` set.
can_save_saving :
    (trim : String → String) (existing : List Entry) (s : NewEntry)
    → can_save trim existing (record s { saving = true }) ≡ false
unfolding can_save
can_save_saving trim existing s = ground arith

-- What an addition that is sent holds.
abbrev pub IsAllowed : List Entry → Addition → Type 0
IsAllowed existing a =
    (is_name (codes a.name) ≡ true)
    × (contains (canonicals existing) a.name ≡ false)
    × (a.value ≢ "")

-- A press on the button that adds an entry either changes and sends nothing, or sends an entry
-- with a valid name that no entry of the scope has and a value that is not empty, and then a
-- second press changes and sends nothing.
submit_lem :
    (trim : String → String) (existing : List Entry) (s : NewEntry)
    → (submit trim existing s ≡ (s, none))
      ⊎ ((submit trim existing s ≡ (record s { saving = true }, some (addition trim s)))
          × IsAllowed existing (addition trim s)
          × (submit trim existing (record s { saving = true })
              ≡ (record s { saving = true }, none)))
unfolding submit can_save addition
submit_lem trim existing s = elim (Bool-cases (can_save trim existing s)) [
  | inl e ↦ inr (
    rw e refl,
    (
      ground (arith, e),
      sym (is_taken-contains existing (trim s.name)) ∙ ground (arith, e),
      λ k. ground (arith, e, (==_iff s.value "").1 k),
    ),
    rw (can_save_saving trim existing s) refl,
  )
  | inr e ↦ inl (rw e refl)
]
