-- ===== src/Editor/Matching.antt =====
-- What the regular expressions of the editor are built from. A text is the list of its UTF-16 code
-- units, and a matcher says how many of them it takes from the front. A run takes all it can; where
-- what follows cannot begin inside the run, this is the one way that it can match.
use pikoci.Base.{
  ℕ, zero, suc, ◌+◌, ◌-◌, Bool, ◌&&◌, ◌||◌, not, Option, none, some, List, [], ◌∷◌, if◌then◌else◌,
  ◌==◌, leb, number_equality,
}
use pikoci.Text.{Chars, is_digit}

-- `\s`
unfoldable pub is_space : ℕ → Bool
is_space c =
    (leb 9 c && leb c 13)
    || c == 32
    || c == 160
    || c == 5760
    || (leb 8192 c && leb c 8202)
    || c == 8232
    || c == 8233
    || c == 8239
    || c == 8287
    || c == 12288
    || c == 65279

-- `\w`
unfoldable pub is_word : ℕ → Bool
is_word c = (leb b'a' c && leb c b'z') || (leb b'A' c && leb c b'Z') || is_digit c || c == b'_'

-- `.` is any but these.
unfoldable pub ends_line : ℕ → Bool
ends_line c = c == 10 || c == 13 || c == 8232 || c == 8233

abbrev pub Matcher : Type 0
Matcher = Chars → Option ℕ

abbrev pub drop : ℕ → Chars → Chars
drop zero s = s
drop (suc n) [] = []
drop (suc n) (c ∷ s) = drop n s

abbrev pub slice : ℕ → Chars → Chars
slice zero s = []
slice (suc n) [] = []
slice (suc n) (c ∷ s) = c ∷ slice n s

abbrev pub plus : ℕ → Option ℕ → Option ℕ
plus n none = none
plus n (some k) = some (n + k)

-- The text itself.
unfoldable pub literal : Chars → Matcher
literal [] s = some 0
literal (c ∷ cs) [] = none
literal (c ∷ cs) (d ∷ s) = let rest = plus 1 (literal cs s) in if c == d then rest else none

unfoldable pub run_length : (ℕ → Bool) → Chars → ℕ
run_length p [] = 0
run_length p (c ∷ s) = let rest = run_length p s in if p c then suc rest else 0

-- `[...]*` and `[...]+`
unfoldable pub any_of : (ℕ → Bool) → Matcher
any_of p s = some (run_length p s)

abbrev pub positive : ℕ → Option ℕ
positive zero = none
positive (suc n) = some (suc n)

unfoldable pub some_of : (ℕ → Bool) → Matcher
some_of p s = positive (run_length p s)

abbrev pub then_match : Option ℕ → (ℕ → Option ℕ) → Option ℕ
then_match none k = none
then_match (some n) k = plus n (k n)

-- One matcher behind the other.
unfoldable pub sequence : List Matcher → Matcher
sequence [] s = some 0
sequence (m ∷ ms) s = then_match (m s) (λ n. sequence ms (drop n s))

abbrev pub or_try {ℓ} : {A : Type ℓ} → Option A → Option A → Option A
or_try none b = b
or_try (some a) b = some a

-- `m|n`
unfoldable pub either_match : Matcher → Matcher → Matcher
either_match m n s = or_try (m s) (n s)

-- `\s*` in front of what may begin with white space: the longest run is tried first.
unfoldable pub spaced : Matcher → Matcher
spaced m [] = m []
spaced m (c ∷ s) =
    let rest = plus 1 (spaced m s) in if is_space c then or_try rest (m (c ∷ s)) else m (c ∷ s)

abbrev pub quote : ℕ
quote = b'"'

unfoldable pub is_label : ℕ → Bool
is_label c = not (c == quote)

-- `"([^"]+)"`
unfoldable pub label : Matcher
label = sequence (literal (quote ∷ []) ∷ some_of is_label ∷ literal (quote ∷ []) ∷ [])

abbrev pub at {ℓ} : {A : Type ℓ} → ℕ → Option A → Option (ℕ × A)
at i none = none
at i (some a) = some (i, a)

-- `re.exec(text)` for a text that begins at `i`: the first place where it matches, and what it says.
unfoldable pub exec {ℓ} : {A : Type ℓ} → (ℕ → Chars → Option A) → ℕ → Chars → Option (ℕ × A)
exec m i [] = at i (m i [])
exec m i (c ∷ s) = or_try (at i (m i (c ∷ s))) (exec m (suc i) s)

-- What the calls of `re.exec(text)` find one after another, for a pattern that takes at least one
-- unit: each begins to look where the last match ended, which the first number says how far it is.
unfoldable pub every_match {ℓ} :
    {A : Type ℓ} → (Chars → Option (A × ℕ)) → ℕ → ℕ → Chars → List (ℕ × A)
every_match m skip i [] = []
every_match m (suc skip) i (c ∷ s) = every_match m skip (suc i) s
every_match m zero i (c ∷ s) = elim (m (c ∷ s)) [
  | none ↦ every_match m 0 (suc i) s
  | some (a, n) ↦ (i, a) ∷ every_match m (n - 1) (suc i) s
]
