-- ===== src/Editor/Panel.antt =====
-- `updateBlocksPanel`, the list of the blocks beside the document, and `clickGraphNode`, the block
-- that belongs to a node of the graph.
use pikoci.Base.{
  ℕ, ◌+◌, String, Bool, ◌||◌, Option, none, some, List, [], ◌∷◌, ◌++◌, map, any, if◌then◌else◌,
  number_equality,
}
use pikoci.Text.{Chars, codes, same_chars, chars_equality}
use pikoci.Editor.Matching.{
  is_space, Matcher, drop, slice, literal, run_length, some_of, sequence, either_match, is_label,
  quote, label, exec, every_match,
}
use pikoci.Editor.Block.{Span}
use pikoci.Editor.Errors.{heading_of, behind_quote, label_in, trim}
use pikoci.Editor.Marks.{error_key, plain_header, span_of}

pub record BlockType : Type 0 where
  pub type : Chars
  pub title : String

abbrev pub block_types : List BlockType
block_types =
    record { type = codes "resource_type"; title = "Resource Types" }
    ∷ record { type = codes "resource"; title = "Resources" }
    ∷ record { type = codes "job"; title = "Jobs" }
    ∷ record { type = codes "secret_type"; title = "Secret Types" }
    ∷ record { type = codes "runner_type"; title = "Runner Types" }
    ∷ record { type = codes "service_type"; title = "Service Types" }
    ∷ record { type = codes "notification_type"; title = "Notification Types" }
    ∷ record { type = codes "notification"; title = "Notifications" }
    ∷ record { type = codes "variable"; title = "Variables" }
    ∷ []

unfoldable pub is_two_label : Chars → Bool
is_two_label type = same_chars type (codes "resource") || same_chars type (codes "notification")

-- `type\s+"([^"]+)"`, and with a second label
unfoldable pub panel_header : Chars → Matcher
panel_header type =
    let one = literal type ∷ some_of is_space ∷ label ∷ [] in
    sequence (if is_two_label type then one ++ some_of is_space ∷ label ∷ [] else one)

-- The label behind the first one.
unfoldable pub second_label : Chars → Chars
second_label s =
    let t = behind_quote s in label_in (behind_quote (drop (run_length is_label t + 1) t))

unfoldable pub display_name : Chars → Chars → Chars
display_name type s =
    let first = (heading_of s).name in
    if is_two_label type then first ++ codes "." ++ second_label s else first

abbrev named_at : Chars → Chars → Option ℕ → Option (Chars × ℕ)
named_at type s none = none
named_at type s (some n) = some (display_name type s, n)

pub record Item : Type 0 where
  pub name : Chars
  pub pos : ℕ
  pub has_error : Bool

unfoldable pub items_of : List Chars → Chars → Chars → List Item
items_of error_lines doc type =
    map
      (λ m. record {
        name = m.1;
        pos = m.0;
        has_error = any (same_chars (error_key type m.1)) error_lines;
      })
      (every_match (λ s. named_at type s (panel_header type s)) 0 0 doc)

pub record Section : Type 0 where
  pub title : String
  pub items : List Item

abbrev section : String → List Item → List Section
section title [] = []
section title (i ∷ items) = record { title = title; items = i ∷ items } ∷ []

unfoldable pub sections : List Chars → Chars → List BlockType → List Section
sections error_lines doc [] = []
sections error_lines doc (t ∷ types) =
    section t.title (items_of error_lines doc t.type) ++ sections error_lines doc types

unfoldable pub blocks_panel : List Chars → Chars → List Section
blocks_panel error_lines doc = sections error_lines doc block_types

-- What stands in front of the first occurrence of the text, and behind it.
unfoldable pub cut_at : Chars → Chars → Option (Chars × Chars)
cut_at t s = elim (exec (λ _. literal t) 0 s) [
  | none ↦ none
  | some (i, n) ↦ some (slice i s, drop (i + n) s)
]

abbrev graph_types : List Chars
graph_types =
    codes "job"
    ∷ codes "resource"
    ∷ codes "resource_type"
    ∷ codes "runner_type"
    ∷ codes "secret_type"
    ∷ codes "service_type"
    ∷ codes "notification_type"
    ∷ codes "notification"
    ∷ []

abbrev named_header : List Chars → Chars → Matcher
named_header [] name s = none
named_header (type ∷ types) name s =
    either_match (plain_header type name) (named_header types name) s

unfoldable pub both_labels : Chars → Chars → Matcher
both_labels type name = sequence (
    either_match (literal (codes "resource")) (literal (codes "notification"))
    ∷ some_of is_space
    ∷ literal (quote ∷ [])
    ∷ literal type
    ∷ literal (quote ∷ [])
    ∷ some_of is_space
    ∷ literal (quote ∷ [])
    ∷ literal name
    ∷ literal (quote ∷ [])
    ∷ [])

abbrev job_name : Chars → Chars
job_name name = elim (cut_at (codes "--") name) [ none ↦ name | some c ↦ c.0 ]

unfoldable pub node_header : Chars → Matcher
node_header name = elim (cut_at (codes ".") name) [
  | none ↦ named_header graph_types (job_name name)
  | some c ↦ both_labels c.0 c.1
]

-- What is selected for a node that shows the text.
unfoldable pub click_graph_node : Chars → Chars → Option Span
click_graph_node doc text = elim (trim text) [
  | [] ↦ none
  | c ∷ name ↦ span_of (exec (λ _. node_header (c ∷ name)) 0 doc)
]
