-- ===== src/Editor/Tests.antt =====
-- Runs of the editor.
use pikoci.Base.{
  ℕ, ◌-◌, ◌+◌, ◌≡◌, refl, ap, [], ◌∷◌, some, none, Option, List, true, false, map, length, Bool,
  All, arith, ◌↔◌,
}
use pikoci.Text.{Chars, codes, same_chars}
use pikoci.Editor.Matching.{
  is_space, is_word, ends_line, drop, slice, literal, run_length, any_of, some_of, sequence,
  either_match, spaced, is_label, label, exec, every_match,
}
use pikoci.Editor.Block.{
  block_header, block_length, block_content, quoted_rest, is_on_line, value, assignment,
  behind_space, attribute_at, find_block_attribute,
}
use pikoci.Editor.Errors.{
  digits_value, parse_int, position_header, split_headers, read_number, expect, position_of,
  trim_start, drop_end, trim, is_separator, message_of, line_problems, up_to_next, behind_quote,
  heading_of, source_header, source_problem, parse_hcl_errors,
}
use pikoci.Editor.Marks.{
  DocLine, Doc, block_span, in_document, line_span, any_header, last_header, error_key, show_line,
  show_problem, show_problems, show_editor_errors,
}
use pikoci.Editor.Panel.{
  is_two_label, panel_header, second_label, display_name, items_of, Section, sections, blocks_panel,
  cut_at, both_labels, node_header, click_graph_node,
}
use pikoci.Editor.Highlight.{Stream, token, LexState, string_rest}
use pikoci.Editor.Tokens.{StreamLaws}
use pikoci.Editor.Progress.{IsToken, token-IsToken}
use pikoci.Editor.Found.{IsAttribute, find_block_attribute_found}
use pikoci.Editor.Ranges.{IsInside, show_editor_errors-IsInside}
use pikoci.Editor.Braces.{IsContent, block_content_iff}

abbrev config : Chars
config = codes "resource \"git\" \"repo\" {\n  source = \"u\"\n}\njob \"a\" {\n  source = \"v\" }\n"

abbrev lines : ℕ → DocLine
lines n = record { from = n; width = 20 }

abbrev doc : Doc
doc = record { text = config; lines = 6; line = lines }

abbrev show : Chars → List (ℕ × ℕ)
show error = map (λ m. (m.span.from, m.span.to)) (show_editor_errors doc error).marks

-- A line that the document does not have, a line that it has, and an attribute.
shown_marks :
    show
      (codes "pipeline.hcl:9,1-2: a; <stdin>:2,3-4,9: b; failed to resolve source for job \"a\": c")
    ≡ (4, 10) ∷ (53, 65) ∷ []
unfolding show_editor_errors parse_hcl_errors split_headers position_header line_problems
    position_of read_number expect parse_int digits_value message_of trim trim_start drop_end
    is_separator source_problem source_header up_to_next heading_of behind_quote every_match exec
    literal sequence some_of any_of run_length either_match spaced label is_label is_space is_word
    ends_line show_problems show_problem show_line line_span in_document block_span
    find_block_attribute block_header block_content block_length attribute_at behind_space
    assignment value quoted_rest is_on_line
shown_marks = refl

abbrev section_errors : Section → List Bool
section_errors s = map (λ i. i.has_error) s.items

-- The key of an error in a resource has its first label; the panel looks for both, and marks it not.
resource_unmarked :
    map section_errors
      (blocks_panel (show_editor_errors doc (codes "<stdin>:2,3-9: b")).error_lines config)
    ≡ (false ∷ []) ∷ (false ∷ []) ∷ []
unfolding blocks_panel sections items_of panel_header display_name second_label is_two_label
    error_key same_chars show_editor_errors parse_hcl_errors split_headers position_header
    line_problems position_of read_number expect parse_int digits_value message_of trim trim_start
    drop_end is_separator source_problem source_header heading_of behind_quote every_match exec
    literal sequence some_of any_of run_length either_match label is_label is_space is_word
    show_problems show_problem show_line any_header last_header
resource_unmarked = refl

node_selected : click_graph_node config (codes " git.repo ") ≡ some (record { from = 0; to = 21 })
unfolding click_graph_node node_header both_labels cut_at exec literal sequence some_of run_length
    either_match is_space trim trim_start drop_end
node_selected = refl

job_source :
    find_block_attribute config (codes "job") (codes "a") (codes "source")
    ≡ some (record { from = 53; to = 65 })
unfolding find_block_attribute block_header block_content block_length attribute_at behind_space
    assignment value quoted_rest is_on_line exec literal sequence some_of any_of run_length
    either_match spaced is_space
job_source = refl

find_block_attribute_found_example :
    (i : ℕ) × (n : ℕ) × (block_header (codes "job") (codes "a") (drop i config) ≡ some n)
    × IsAttribute (codes "source") config (i + n) (record { from = 53; to = 65 })
find_block_attribute_found_example =
    find_block_attribute_found config (codes "job") (codes "a") (codes "source")
      (record { from = 53; to = 65 }) job_source

show_editor_errors-IsInside_example :
    All
      (λ m. IsInside (length doc.text) m.span)
      (show_editor_errors doc (codes "<stdin>:2,3-9: b")).marks
show_editor_errors-IsInside_example = show_editor_errors-IsInside doc (codes "<stdin>:2,3-9: b")

block_content_iff_example :
    IsContent (codes "a {b}") (codes "a {b}} c")
    ↔ (codes "a {b}" ≡ block_content (codes "a {b}} c"))
block_content_iff_example = block_content_iff (codes "a {b}") (codes "a {b}} c")

-- A block that is not closed is all that follows.
open_block : block_content (codes "a {b} c") ≡ codes "a {b} c"
unfolding block_content block_length
open_block = refl

-- A stream over a text: what stood there when the token began, and what is left.
abbrev Place : Type 0
Place = Chars × Chars

abbrev left : Place → Chars
left s = s.1

abbrev passed : Chars → Place → Option ℕ → Option Place
passed start s none = none
passed start s (some n) = some (start, drop n s.1)

abbrev after : Place → Option ℕ × Place
after (start, []) = (none, (start, []))
after (start, c ∷ cs) = (some c, (start, cs))

abbrev at_end : Chars → Bool
at_end [] = true
at_end (c ∷ cs) = false

abbrev places : Stream Place
places = record {
  eol = λ s. at_end s.1;
  next = after;
  match_at = λ m s. passed s.0 s (m s.1);
  skip_to_end = λ s. (s.0, []);
  current = λ s. slice (length s.0 - length s.1) s.0;
}

at_end_iff : (cs : Chars) → (at_end cs ≡ true) ↔ (cs ≡ [])
at_end_iff [] = (λ h. refl, λ h. refl)
at_end_iff (c ∷ cs) = (λ h. cc, λ h. cc)

after_end : (s : Place) → s.1 ≡ [] → (after s).1.1 ≡ []
after_end (start, []) h = refl
after_end (start, c ∷ cs) h = cc

after_unit :
    (s : Place) (c : ℕ) (cs : Chars) → s.1 ≡ c ∷ cs → ((after s).0 ≡ some c) × ((after s).1.1 ≡ cs)
after_unit (start, []) c cs h = cc
after_unit (start, d ∷ ds) c cs h = (cc, cc)

places-StreamLaws : StreamLaws places left
places-StreamLaws = record {
  eol_iff = λ s. at_end_iff s.1;
  next_end = after_end;
  next_some = after_unit;
  match_none = λ m s h. ap (passed s.0 s) h;
  match_some = λ m s n h. ((s.0, drop n s.1), ap (passed s.0 s) h, refl);
  skipped = λ s. refl;
}

abbrev in_string : LexState
in_string = record { in_string = true; in_comment = false }

token-IsToken_example :
    IsToken left in_string
      (codes "a\\\" b\" c", codes "a\\\" b\" c")
      (token places 9 in_string (codes "a\\\" b\" c", codes "a\\\" b\" c"))
token-IsToken_example =
    token-IsToken places left places-StreamLaws 9 in_string
      (codes "a\\\" b\" c", codes "a\\\" b\" c") (omega arith) (λ h. cc) refl

-- The escaped quote does not end the string.
string_left : (token places 9 in_string ([], codes "a\\\" b\" c")).stream.1 ≡ codes " c"
unfolding token string_rest
string_left = refl
