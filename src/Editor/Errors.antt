-- ===== src/Editor/Errors.antt =====
-- `parseHCLErrors`: what the server says is wrong with a pipeline, taken apart.
use pikoci.Base.{
  ℕ, zero, suc, ◌+◌, ◌-◌, ◌*◌, Bool, true, false, ◌||◌, Option, none, some, List, [], ◌∷◌, ◌++◌,
  map, length, if◌then◌else◌, ◌==◌, number_equality, ◌>>=◌,
}
use pikoci.Text.{Chars, codes, is_digit}
use pikoci.Editor.Matching.{
  is_space, is_word, ends_line, Matcher, drop, slice, plus, literal, run_length, any_of, some_of,
  sequence, either_match, spaced, is_label, label, exec, every_match,
}

pub data Problem : Type 0 where
  on_line : (line col_start col_end : ℕ) (message : Chars) → Problem
  on_block : (type name attribute message : Chars) → Problem

unfoldable pub digits_value : ℕ → Chars → ℕ
digits_value n [] = n
digits_value n (c ∷ s) = digits_value (n * 10 + (c - b'0')) s

-- `parseInt(digits, 10)`
unfoldable pub parse_int : Chars → ℕ
parse_int s = digits_value 0 s

-- `(?:pipeline\.hcl|<stdin>):\d+,\d+-(?:\d+,)?\d+:\s*`
unfoldable pub position_header : Matcher
position_header = sequence (
    either_match (literal (codes "pipeline.hcl")) (literal (codes "<stdin>"))
    ∷ literal (codes ":")
    ∷ some_of is_digit
    ∷ literal (codes ",")
    ∷ some_of is_digit
    ∷ literal (codes "-")
    ∷ either_match
        (sequence
          (some_of is_digit ∷ literal (codes ",") ∷ some_of is_digit ∷ literal (codes ":") ∷ []))
        (sequence (some_of is_digit ∷ literal (codes ":") ∷ []))
    ∷ any_of is_space
    ∷ [])

-- `text.split(re)` for a pattern in a group: the text in front of the first header, and each header
-- with the text up to the next. The number says how much of a header is still to pass.
unfoldable pub split_headers : ℕ → Chars → Chars × List (Chars × Chars)
split_headers skip [] = ([], [])
split_headers (suc skip) (c ∷ s) = split_headers skip s
split_headers zero (c ∷ s) = elim (position_header (c ∷ s)) [
  | none ↦ let rest = split_headers 0 s in (c ∷ rest.0, rest.1)
  | some n ↦ let rest = split_headers (n - 1) s in ([], (slice n (c ∷ s), rest.0) ∷ rest.1)
]

-- `(\d+),(\d+)-(?:(\d+),)?(\d+)`, with the first, the second and the last group
pub record Position : Type 0 where
  line : ℕ
  column : ℕ
  end_column : ℕ

abbrev number_and_rest : Option ℕ → Chars → Option (ℕ × Chars)
number_and_rest none s = none
number_and_rest (some n) s = some (parse_int (slice n s), drop n s)

unfoldable pub read_number : Chars → Option (ℕ × Chars)
read_number s = number_and_rest (some_of is_digit s) s

abbrev rest_behind : Option ℕ → Chars → Option Chars
rest_behind none s = none
rest_behind (some n) s = some (drop n s)

unfoldable pub expect : Chars → Chars → Option Chars
expect t s = rest_behind (literal t s) s

abbrev last_number : ℕ → Option (ℕ × Chars) → ℕ
last_number n none = n
last_number n (some r) = r.0

abbrev number_behind : Option Chars → Option (ℕ × Chars)
number_behind none = none
number_behind (some s) = read_number s

unfoldable pub position_of : ℕ → Chars → Option Position
position_of _ s = do
  line ← read_number s
  s ← expect (codes ",") line.1
  column ← read_number s
  s ← expect (codes "-") column.1
  last ← read_number s
  some (record {
    line = line.0;
    column = column.0;
    end_column = last_number last.0 (number_behind (expect (codes ",") last.1));
  })

unfoldable pub trim_start : Chars → Chars
trim_start [] = []
trim_start (c ∷ s) = let rest = trim_start s in if is_space c then rest else c ∷ s

-- `replace(/[...]+$/, '')`
unfoldable pub drop_end : (ℕ → Bool) → Chars → Chars
drop_end p [] = []
drop_end p (c ∷ s) = elim (drop_end p s) [
  | [] ↦ if p c then [] else c ∷ []
  | d ∷ rest ↦ c ∷ d ∷ rest
]

unfoldable pub trim : Chars → Chars
trim s = drop_end is_space (trim_start s)

unfoldable pub is_separator : ℕ → Bool
is_separator c = c == b';' || is_space c

unfoldable pub message_of : Chars → Chars
message_of body = trim (drop_end is_separator (trim body))

abbrev problem_at : Option (ℕ × Position) → Chars → List Problem
problem_at none msg = []
problem_at (some (_, p)) [] = []
problem_at (some (_, p)) (c ∷ msg) = on_line p.line p.column p.end_column (c ∷ msg) ∷ []

unfoldable pub line_problems : List (Chars × Chars) → List Problem
line_problems [] = []
line_problems ((header, body) ∷ parts) =
    problem_at (exec position_of 0 header) (message_of body) ++ line_problems parts

abbrev failed_text : Chars
failed_text = codes "failed to resolve source for"

abbrev stops : Chars → Bool
stops [] = true
stops (c ∷ s) = elim (literal failed_text (c ∷ s)) [ none ↦ false | some _ ↦ true ]

-- `(.+?)(?=failed to resolve source for|$)`
unfoldable pub up_to_next : Matcher
up_to_next [] = none
up_to_next (c ∷ s) =
    let rest = plus 1 (up_to_next s) in
    if ends_line c then none else if stops s then some 1 else rest

abbrev source_start : Chars → Option ℕ
source_start = sequence (literal failed_text ∷ literal (codes " ") ∷ [])

-- The word in front of a label, and the label.
pub record Heading : Type 0 where
  pub word : Chars
  pub name : Chars

-- What stands behind a word, white space and a quote.
unfoldable pub behind_quote : Chars → Chars
behind_quote s = let t = drop (run_length is_word s) s in drop (run_length is_space t + 1) t

abbrev pub label_in : Chars → Chars
label_in s = slice (run_length is_label s) s

unfoldable pub heading_of : Chars → Heading
heading_of s = record { word = slice (run_length is_word s) s; name = label_in (behind_quote s) }

-- `failed to resolve source for (\w+)\s+"([^"]+)":\s*`, with its length
unfoldable pub source_header : Matcher
source_header =
    sequence (source_start ∷ some_of is_word ∷ some_of is_space ∷ label ∷ literal (codes ":") ∷ [])

abbrev source_found : Chars → ℕ → Option ℕ → Option (Problem × ℕ)
source_found s n none = none
source_found s n (some k) =
    let h = heading_of (drop (length failed_text + 1) s) in
    some (
      on_block h.word h.name (codes "source") (trim (drop_end is_separator (slice k (drop n s)))),
      n + k,
    )

abbrev source_behind : Chars → Option ℕ → Option (Problem × ℕ)
source_behind s none = none
source_behind s (some n) = source_found s n (spaced up_to_next (drop n s))

-- `failed to resolve source for (\w+)\s+"([^"]+)":\s*(.+?)(?=failed to resolve source for|$)`. The
-- white space in front of the message is taken with it, and `trim` drops it.
unfoldable pub source_problem : Chars → Option (Problem × ℕ)
source_problem s = source_behind s (source_header s)

abbrev fallback : Chars → List Problem
fallback [] = []
fallback (c ∷ msg) = on_line 1 1 2 (c ∷ msg) ∷ []

-- With the whole text on the first line when nothing was found.
abbrev or_fallback : Chars → List Problem → List Problem
or_fallback s [] = fallback (trim s)
or_fallback s (p ∷ ps) = p ∷ ps

unfoldable pub parse_hcl_errors : Chars → List Problem
parse_hcl_errors s =
    or_fallback s
      (line_problems (split_headers 0 s).1 ++ map (λ m. m.1) (every_match source_problem 0 0 s))
