-- ===== src/Editor/Ranges.antt =====
-- What is marked is in the document.
use pikoci.Base.{
  ℕ, suc, ◌+◌, ◌-◌, ◌≤◌, ◌<◌, ◌||◌, Option, none, some, List, [], ◌∷◌, length, ◌≡◌, refl, arith,
  ◌⊎◌, inl, All, All-append, ltb, leb, if◌then◌else◌, true, false, Bool, number_equality,
}
use pikoci.Text.{Chars}
use pikoci.Editor.Matching.{or_try, drop, exec, is_space}
use pikoci.Editor.Block.{Span, block_length, find_block_attribute}
use pikoci.Editor.Errors.{Problem, on_line, on_block, parse_hcl_errors}
use pikoci.Editor.Fits.{
  Takes, literal-Takes, some_of-Takes, sequence_nil-Takes, sequence-Takes, length-drop, exec_found,
}
use pikoci.Editor.Attribute.{fewer-Takes}
use pikoci.Editor.Found.{within_some, length_left, find_block_attribute_found}
use pikoci.Editor.Marks.{
  Doc, Shown, plain_header, span_of, block_span, mark, clamp, in_document, line_span, show_line,
  show_problem, show_problems, show_editor_errors,
}

-- A span that ends in the document, and is empty only at its end.
abbrev pub IsInside : ℕ → Span → Type 0
IsInside size s = (s.to ≤ size) × ((s.from < s.to) ⊎ (s.from ≡ size))

block_length_le : (depth : ℕ) (s : Chars) → block_length depth s ≤ length s
unfolding block_length
block_length_le depth [] = omega arith
block_length_le depth (c ∷ s) =
    ground
      (arith, block_length_le (suc depth) s, block_length_le (depth - 1) s, block_length_le depth s)

plain_header-Takes : (type name : Chars) → Takes 1 (plain_header type name)
unfolding plain_header
plain_header-Takes type name = fewer-Takes _ 1 _ (omega arith) (
    sequence-Takes _ _ _ _ (literal-Takes type) (
      sequence-Takes _ _ _ _ (some_of-Takes is_space) (
        sequence-Takes _ _ _ _ (literal-Takes _) (
          sequence-Takes _ _ _ _ (literal-Takes name)
            (sequence-Takes _ _ _ _ (literal-Takes _) sequence_nil-Takes)))))

header-IsInside :
    (text type name : Chars) (r : Option (ℕ × ℕ)) (s : Span)
    → exec (λ _. plain_header type name) 0 text ≡ r
    → span_of r ≡ some s
    → IsInside (length text) s
header-IsInside text type name none s e h = cc
header-IsInside text type name (some (i, n)) s e h =
    let (k, f, k_le, m) = exec_found (λ _. plain_header type name) 0 text (i, n) e in
    let (low, high) = within_some 1 _ n _ (plain_header-Takes type name (drop k text)) m in
    let a : s.from ≡ i = cc in
    let b : s.to ≡ i + n = cc in
    let l = length-drop k text k_le in
    (omega (arith, f, high, a, b, l), inl (omega (arith, low, a, b)))

attribute-IsInside :
    (text type name attribute : Chars) (s : Span)
    → find_block_attribute text type name attribute ≡ some s
    → IsInside (length text) s
attribute-IsInside text type name attribute s h =
    let (i, n, e, found) = find_block_attribute_found text type name attribute s h in
    let l = block_length_le 1 (drop (i + n) text) in
    let k = length_left (i + n) text in
    (omega (arith, l, k, found.behind, found.full, found.inside), inl found.full)

ends_inside :
    (size first last : ℕ)
    → first ≤ size
    → (clamp size (if leb last first then first + 1 else last) ≤ size)
      × ((first < clamp size (if leb last first then first + 1 else last)) ⊎ (first ≡ size))
ends_inside size first last h = (ground (arith, h), ground (arith, h))

clamp_le : (size n : ℕ) → clamp size n ≤ size
clamp_le size n = ground arith

in_document-IsInside : (size from to : ℕ) → IsInside size (in_document size from to)
unfolding in_document
in_document-IsInside size from to =
    ends_inside size (clamp size from) (clamp size to) (clamp_le size from)

either-IsInside :
    (size : ℕ) (a b : Option Span) (s : Span)
    → ((t : Span) → a ≡ some t → IsInside size t)
    → ((t : Span) → b ≡ some t → IsInside size t)
    → or_try a b ≡ some s
    → IsInside size s
either-IsInside size none b s h k e = k s e
either-IsInside size (some a) b s h k e = h s e

mark-IsInside :
    (size : ℕ) (message : Chars) (r : Option Span)
    → ((s : Span) → r ≡ some s → IsInside size s)
    → All (λ m. IsInside size m.span) (mark message r)
mark-IsInside size message none h = tt
mark-IsInside size message (some s) h = (h s refl, tt)

block_span-IsInside :
    (text type name attribute : Chars) (s : Span)
    → block_span text type name attribute ≡ some s
    → IsInside (length text) s
unfolding block_span
block_span-IsInside text type name attribute s h =
    either-IsInside (length text) _ _ s (attribute-IsInside text type name attribute)
      (λ t e. header-IsInside text type name _ t refl e) h

show_line-IsInside :
    (doc : Doc) (line col_start col_end : ℕ) (message : Chars)
    → All
        (λ m. IsInside (length doc.text) m.span)
        (show_line doc line col_start col_end message).marks
unfolding show_line line_span
show_line-IsInside doc line col_start col_end message =
    (in_document-IsInside (length doc.text) _ _, tt)

either_shown : (b : Bool) (P : Shown → Type 0) (s t : Shown) → P s → P t → P (if b then s else t)
either_shown true P s t h k = h
either_shown false P s t h k = k

show_problem-IsInside :
    (doc : Doc) (p : Problem)
    → All (λ m. IsInside (length doc.text) m.span) (show_problem doc p).marks
unfolding show_problem
show_problem-IsInside doc (on_block type name attribute message) =
    mark-IsInside (length doc.text) message _ (block_span-IsInside doc.text type name attribute)
show_problem-IsInside doc (on_line line col_start col_end message) =
    either_shown (ltb line 1 || ltb doc.lines line)
      (λ s. All (λ m. IsInside (length doc.text) m.span) s.marks) _ _ tt
      (show_line-IsInside doc line col_start col_end message)

problems-IsInside :
    (doc : Doc) (ps : List Problem)
    → All (λ m. IsInside (length doc.text) m.span) (show_problems doc ps).marks
unfolding show_problems
problems-IsInside doc [] = tt
problems-IsInside doc (p ∷ ps) =
    All-append _ _ _ (show_problem-IsInside doc p) (problems-IsInside doc ps)

-- Whatever the document, its lines and the text of the error, each mark ends in the document and
-- is empty only at its end.
pub show_editor_errors-IsInside :
    (doc : Doc) (error : Chars)
    → All (λ m. IsInside (length doc.text) m.span) (show_editor_errors doc error).marks
unfolding show_editor_errors
show_editor_errors-IsInside doc error = problems-IsInside doc (parse_hcl_errors error)
