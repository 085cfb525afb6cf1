-- ===== src/Editor/Block.antt =====
-- `findBlockAttribute`: where an attribute of a block stands in the document.
use pikoci.Base.{
  ℕ, suc, ◌+◌, ◌-◌, Bool, not, Option, none, some, [], ◌∷◌, if◌then◌else◌, ◌==◌, number_equality,
}
use pikoci.Text.{Chars}
use pikoci.Editor.Matching.{
  is_space, ends_line, Matcher, drop, slice, plus, literal, run_length, any_of, some_of, sequence,
  or_try, either_match, spaced, quote, exec,
}

pub record Span : Type 0 where
  pub from : ℕ
  pub to : ℕ

-- `type\s+"name"\s*\{`
unfoldable pub block_header : Chars → Chars → Matcher
block_header type name = sequence (
    literal type
    ∷ some_of is_space
    ∷ literal (quote ∷ [])
    ∷ literal name
    ∷ literal (quote ∷ [])
    ∷ any_of is_space
    ∷ literal (b'{' ∷ [])
    ∷ [])

-- How much of the text stands before the brace that closes the block.
unfoldable pub block_length : ℕ → Chars → ℕ
block_length depth [] = 0
block_length depth (c ∷ s) =
    let deeper = block_length (suc depth) s in
    let higher = block_length (depth - 1) s in
    let level = block_length depth s in
    if c == b'{'
    then suc deeper
    else if c == b'}'
    then if depth - 1 == 0 then 0 else suc higher
    else suc level

unfoldable pub block_content : Chars → Chars
block_content s = slice (block_length 1 s) s

-- What stands behind the opening quote: `(?:[^"\\]|\\.)*"`
unfoldable pub quoted_rest : Matcher
quoted_rest [] = none
quoted_rest (c ∷ []) = if c == quote then some 1 else none
quoted_rest (c ∷ d ∷ s) =
    let plain = plus 1 (quoted_rest (d ∷ s)) in
    let escaped = plus 2 (quoted_rest s) in
    if c == quote
    then some 1
    else if c == b'\\'
    then if ends_line d then none else escaped
    else plain

unfoldable pub is_on_line : ℕ → Bool
is_on_line c = not (c == 10)

-- `"(?:[^"\\]|\\.)*"|[^\n]+`
unfoldable pub value : Matcher
value = either_match (sequence (literal (quote ∷ []) ∷ quoted_rest ∷ [])) (some_of is_on_line)

-- `attribute\s*=\s*(value)`
unfoldable pub assignment : Chars → Matcher
assignment attribute =
    sequence (literal attribute ∷ any_of is_space ∷ literal (b'=' ∷ []) ∷ spaced value ∷ [])

-- What the groups have: the line break and the white space in front, and the rest of the match.
pub record Groups : Type 0 where
  pub before : ℕ
  pub taken : ℕ

abbrev pub groups : ℕ → Option ℕ → Option Groups
groups n none = none
groups n (some k) = some (record { before = n; taken = k })

unfoldable pub behind_space : Chars → ℕ → Chars → Option Groups
behind_space attribute lead s =
    groups (lead + run_length is_space s) (assignment attribute (drop (run_length is_space s) s))

-- `(^|\n)(\s*)attribute\s*=\s*(value)` at `i`, for an attribute that does not begin with white space
unfoldable pub attribute_at : Chars → ℕ → Chars → Option Groups
attribute_at attribute i s =
    or_try (if i == 0 then behind_space attribute 0 s else none)
      (elim s [ [] ↦ none | c ∷ rest ↦ if c == 10 then behind_space attribute 1 rest else none ])

abbrev pub span_at : ℕ → Option (ℕ × Groups) → Option Span
span_at start none = none
span_at start (some (i, g)) =
    some (record { from = start + i + g.before; to = start + i + g.before + g.taken })

abbrev pub in_block : Chars → Chars → Option (ℕ × ℕ) → Option Span
in_block attribute text none = none
in_block attribute text (some (i, n)) =
    span_at (i + n) (exec (attribute_at attribute) 0 (block_content (drop (i + n) text)))

unfoldable pub find_block_attribute : Chars → Chars → Chars → Chars → Option Span
find_block_attribute text type name attribute =
    in_block attribute text (exec (λ _. block_header type name) 0 text)
