-- ===== src/Editor/Found.antt =====
-- Where the span of an attribute stands.
use pikoci.Base.{
  ℕ, zero, suc, ◌+◌, ◌-◌, ◌≤◌, ◌<◌, Option, none, some, [], ◌∷◌, length, ◌≡◌, refl, ap, ◌∙◌, sym,
  arith,
}
use pikoci.Text.{Chars}
use pikoci.Editor.Matching.{drop, slice, exec}
use pikoci.Editor.Block.{
  Span, Groups, block_header, block_length, block_content, assignment, attribute_at, span_at,
  in_block, find_block_attribute,
}
use pikoci.Editor.Fits.{IsWithin, exec_found}
use pikoci.Editor.Attribute.{
  attribute_at_found, assigned_name, drop-slice, drop-drop, length-slice, assignment-Takes,
}

-- The span is in the text from `start` on, not empty, and begins with the name of the attribute.
pub record IsAttribute (attribute text : Chars) (start : ℕ) (s : Span) : Type 0 where
  pub behind : start ≤ s.from
  pub full : s.from < s.to
  pub inside : s.to ≤ start + block_length 1 (drop start text)
  pub named : slice (length attribute) (drop s.from text) ≡ attribute

pub within_some :
    (low high n : ℕ) (r : Option ℕ) → IsWithin low high r → r ≡ some n → (low ≤ n) × (n ≤ high)
within_some low high n none h e = cc
within_some low high n (some m) h e =
    let f : m ≡ n = cc in (omega (arith, h.0, f), omega (arith, h.1, f))

pub length_left : (n : ℕ) (s : Chars) → length (drop n s) ≡ length s - n
length_left zero s = omega arith
length_left (suc n) [] = omega arith
length_left (suc n) (c ∷ s) = omega (arith, length_left n s)

add_assoc : (i j k : ℕ) → i + (j + k) ≡ i + j + k
add_assoc i j k = omega arith

-- The text behind a place in a slice is a slice of what stands there in the whole.
content_at :
    (text : Chars) (start n k before : ℕ)
    → (m : ℕ) × (drop before (drop k (slice n (drop start text)))
        ≡ slice m (drop (start + k + before) text))
content_at text start n k before =
    let (m, e) = drop-slice (k + before) n (drop start text) in
    (
      m,
      drop-drop before k (slice n (drop start text))
          ∙ e
          ∙ ap (slice m) (
              drop-drop (k + before) start text ∙ ap (λ i. drop i text) (add_assoc start k before)),
    )

span_eq :
    (start j : ℕ) (g : Groups) (s : Span)
    → span_at start (some (j, g)) ≡ some s
    → (s.from ≡ start + j + g.before) × (s.to ≡ start + j + g.before + g.taken)
span_eq start j g s h = (cc, cc)

in_content :
    (attribute text : Chars) (start : ℕ) (r : Option (ℕ × Groups)) (s : Span)
    → exec (attribute_at attribute) 0 (block_content (drop start text)) ≡ r
    → span_at start r ≡ some s
    → IsAttribute attribute text start s
unfolding block_content
in_content attribute text start none s e h = cc
in_content attribute text start (some (j, g)) s e h =
    let content = block_content (drop start text) in
    let (k, f, k_le, m) = exec_found (attribute_at attribute) 0 content (j, g) e in
    let a = attribute_at_found attribute (0 + k) (drop k content) g m in
    let (low, high) =
      within_some 1 _ g.taken _ (assignment-Takes attribute (drop g.before (drop k content))) a in
    let (cut, d) = content_at text start (block_length 1 (drop start text)) k g.before in
    let (s_from, s_to) = span_eq start j g s h in
    let place : s.from ≡ start + k + g.before = omega (arith, s_from, f) in
    let l1 = length_left g.before (drop k content) in
    let l2 = length_left k content in
    let l3 = length-slice (block_length 1 (drop start text)) (drop start text) in
    record {
      behind = omega (arith, s_from);
      full = omega (arith, s_from, s_to, low);
      inside = omega (arith, s_from, s_to, low, high, l1, l2, l3, f);
      named =
          ap (λ i. slice (length attribute) (drop i text)) place
          ∙ assigned_name attribute _ cut g.taken (sym (ap (assignment attribute) d) ∙ a);
    }

in_block_found :
    (text type name attribute : Chars) (r : Option (ℕ × ℕ)) (s : Span)
    → exec (λ _. block_header type name) 0 text ≡ r
    → in_block attribute text r ≡ some s
    → (i : ℕ) × (n : ℕ) × (block_header type name (drop i text) ≡ some n)
      × IsAttribute attribute text (i + n) s
in_block_found text type name attribute none s e h = cc
in_block_found text type name attribute (some (i, n)) s e h =
    let (k, f, k_le, m) = exec_found (λ _. block_header type name) 0 text (i, n) e in
    let place : k ≡ i = omega (arith, f) in
    (
      i,
      n,
      ap (λ j. block_header type name (drop j text)) (sym place) ∙ m,
      in_content attribute text (i + n) _ s refl h,
    )

-- If `findBlockAttribute` finds a span, then it is not empty, stands behind the opening brace of a
-- block of the type and the name and at most reaches the end of this block, and what it begins
-- with is the name of the attribute.
pub find_block_attribute_found :
    (text type name attribute : Chars) (s : Span)
    → find_block_attribute text type name attribute ≡ some s
    → (i : ℕ) × (n : ℕ) × (block_header type name (drop i text) ≡ some n)
      × IsAttribute attribute text (i + n) s
unfolding find_block_attribute
find_block_attribute_found text type name attribute s h =
    in_block_found text type name attribute _ s refl h
