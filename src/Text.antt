-- ===== src/Text.antt =====
-- Texts as lists of code points, for the code that walks them: `split` and `join` at one
-- character, and the numbers that are written in digits.
pub mod Split
use Prim.Native.Char.{code}
use pikoci.Base.{
  ℕ, ◌+◌, ◌-◌, ◌*◌, String, Bool, true, false, ◌&&◌, ◌≡◌, ◌↔◌, refl, arith, Equality, ==_iff,
  Bool-cases, inl, inr, Option, none, some, List, [], ◌∷◌, ◌++◌, leb, if◌then◌else◌, ◌==◌,
  number_equality,
}

abbrev pub Chars : Type 0
Chars = List ℕ

abbrev pub codes : String → Chars
codes String.[] = []
codes (String.◌∷◌ c s) = code c ∷ codes s

unfoldable pub same_chars : Chars → Chars → Bool
same_chars [] [] = true
same_chars [] (_ ∷ _) = false
same_chars (_ ∷ _) [] = false
same_chars (c ∷ cs) (d ∷ ds) = c == d && same_chars cs ds

pub same_chars_iff : (a b : Chars) → (same_chars a b ≡ true) ↔ (a ≡ b)
unfolding same_chars
same_chars_iff [] [] = (λ h. refl, λ h. refl)
same_chars_iff [] (d ∷ ds) = (λ h. cc, λ h. cc)
same_chars_iff (c ∷ cs) [] = (λ h. cc, λ h. cc)
same_chars_iff (c ∷ cs) (d ∷ ds) = (
  λ h. (ground (arith, h, (same_chars_iff cs ds).0, (==_iff c d).0)),
  λ h. ground (arith, h, (same_chars_iff cs ds).1, (==_iff c d).1),
)

instance abbrev pub chars_equality : Equality Chars
chars_equality = record { same = same_chars; same_iff = same_chars_iff }

-- `c` in front of the first part.
abbrev pub push_front : ℕ → List Chars → List Chars
push_front c [] = (c ∷ []) ∷ []
push_front c (part ∷ parts) = (c ∷ part) ∷ parts

-- `text.split(sep)`: never empty.
unfoldable pub split : ℕ → Chars → List Chars
split sep [] = [] ∷ []
split sep (c ∷ cs) = if c == sep then [] ∷ split sep cs else push_front c (split sep cs)

-- `parts.join(sep)`
unfoldable pub join : ℕ → List Chars → Chars
join sep [] = []
join sep (part ∷ parts) = elim parts [ [] ↦ part | _ ∷ _ ↦ part ++ sep ∷ join sep parts ]

abbrev pub is_digit : ℕ → Bool
is_digit c = leb b'0' c && leb c b'9'

unfoldable pub digits_from : ℕ → Chars → Option ℕ
digits_from n [] = some n
digits_from n (c ∷ cs) =
    let rest = digits_from (n * 10 + (c - b'0')) cs in if is_digit c then rest else none

-- `Number(text)`, with `none` for NaN, on texts of digits; the empty text is 0. Signs, fractions,
-- exponents, hexadecimal numbers and white space, which no build number has, count as NaN.
unfoldable pub to_number : Chars → Option ℕ
to_number cs = digits_from 0 cs
