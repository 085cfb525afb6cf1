-- ===== src/Editor/Marks.antt =====
-- `showEditorErrors`, what is marked in the document for the errors of the server, and
-- `updateBlocksPanel`, the list of the blocks. The document of CodeMirror is a parameter: how many
-- lines it has, and where each of them begins and how long it is.
use pikoci.Base.{
  ℕ, ◌+◌, ◌-◌, min, ◌||◌, Option, none, some, List, [], ◌∷◌, ◌++◌, length, if◌then◌else◌, ◌==◌, leb,
  ltb, number_equality,
}
use pikoci.Text.{Chars, codes, chars_equality}
use pikoci.Editor.Matching.{
  or_try, is_space, Matcher, literal, some_of, sequence, either_match, quote, label, exec,
  every_match,
}
use pikoci.Editor.Block.{Span, find_block_attribute}
use pikoci.Editor.Errors.{Problem, on_line, on_block, Heading, heading_of, parse_hcl_errors}

pub record DocLine : Type 0 where
  pub from : ℕ
  pub width : ℕ

pub record Doc : Type 0 where
  pub text : Chars
  pub lines : ℕ
  pub line : ℕ → DocLine

pub record Mark : Type 0 where
  pub span : Span
  pub message : Chars

-- The marks, and the keys of `errorLines`.
pub record Shown : Type 0 where
  pub marks : List Mark
  pub error_lines : List Chars

-- `type\s+"name"`
unfoldable pub plain_header : Chars → Chars → Matcher
plain_header type name = sequence (
    literal type
    ∷ some_of is_space
    ∷ literal (quote ∷ [])
    ∷ literal name
    ∷ literal (quote ∷ [])
    ∷ [])

abbrev pub span_of : Option (ℕ × ℕ) → Option Span
span_of none = none
span_of (some (i, n)) = some (record { from = i; to = i + n })

-- The attribute, or else the header of the block.
unfoldable pub block_span : Chars → Chars → Chars → Chars → Option Span
block_span text type name attribute =
    or_try (find_block_attribute text type name attribute)
      (span_of (exec (λ _. plain_header type name) 0 text))

abbrev pub mark : Chars → Option Span → List Mark
mark message none = []
mark message (some s) = record { span = s; message = message } ∷ []

abbrev pub clamp : ℕ → ℕ → ℕ
clamp top n = if ltb top n then top else n

-- Both ends moved into a document of the size, and the second behind the first.
unfoldable pub in_document : ℕ → ℕ → ℕ → Span
in_document size from to =
    let first = clamp size from in
    let last = clamp size to in
    record { from = first; to = clamp size (if leb last first then first + 1 else last) }

-- `Math.max(0, colStart - 1)` and `Math.min(line.length, colEnd - 1)`, which is -1 for a column 0;
-- the end is then in front of the start, also where it stops at 0 here.
unfoldable pub line_span : ℕ → DocLine → ℕ → ℕ → Span
line_span size l col_start col_end =
    in_document size (l.from + (col_start - 1))
      (if col_end == 0 then l.from - 1 else l.from + min l.width (col_end - 1))

abbrev first_match : List Chars → Matcher
first_match [] s = none
first_match (type ∷ types) s =
    either_match (sequence (literal type ∷ some_of is_space ∷ label ∷ [])) (first_match types) s

abbrev pub header_types : List Chars
header_types =
    codes "job"
    ∷ codes "resource"
    ∷ codes "resource_type"
    ∷ codes "runner_type"
    ∷ codes "secret_type"
    ∷ codes "service_type"
    ∷ codes "notification_type"
    ∷ codes "notification"
    ∷ codes "variable"
    ∷ []

abbrev headed : Chars → Option ℕ → Option (Heading × ℕ)
headed s none = none
headed s (some n) = some (heading_of s, n)

-- `(?:job|resource|...)\s+"([^"]+)"`
unfoldable pub any_header : Chars → Option (Heading × ℕ)
any_header s = headed s (first_match header_types s)

-- The last of the headers that begins at the place or in front of it.
unfoldable pub last_header : ℕ → Option Heading → List (ℕ × Heading) → Option Heading
last_header place last [] = last
last_header place last ((i, h) ∷ found) =
    let next = last_header place (some h) found in if leb i place then next else last

-- `type + ':"' + name + '"'`
unfoldable pub error_key : Chars → Chars → Chars
error_key type name = type ++ codes ":\"" ++ name ++ codes "\""

abbrev key_of_header : Option Heading → List Chars
key_of_header none = []
key_of_header (some h) = error_key h.word h.name ∷ []

unfoldable pub show_line : Doc → ℕ → ℕ → ℕ → Chars → Shown
show_line doc line col_start col_end message = record {
  marks = mark message (some (line_span (length doc.text) (doc.line line) col_start col_end));
  error_lines =
      key_of_header (last_header (doc.line line).from none (every_match any_header 0 0 doc.text));
}

abbrev pub nothing_shown : Shown
nothing_shown = record { marks = []; error_lines = [] }

-- One turn of the loop over the problems.
unfoldable pub show_problem : Doc → Problem → Shown
show_problem doc (on_block type name attribute message) = record {
  marks = mark message (block_span doc.text type name attribute);
  error_lines = error_key type name ∷ [];
}
show_problem doc (on_line line col_start col_end message) =
    if ltb line 1 || ltb doc.lines line
    then nothing_shown
    else show_line doc line col_start col_end message

unfoldable pub show_problems : Doc → List Problem → Shown
show_problems doc [] = nothing_shown
show_problems doc (p ∷ ps) = record {
  marks = (show_problem doc p).marks ++ (show_problems doc ps).marks;
  error_lines = (show_problem doc p).error_lines ++ (show_problems doc ps).error_lines;
}

unfoldable pub show_editor_errors : Doc → Chars → Shown
show_editor_errors doc error = show_problems doc (parse_hcl_errors error)
