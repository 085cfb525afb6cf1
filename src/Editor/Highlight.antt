-- ===== src/Editor/Highlight.antt =====
-- `hclLanguage`: how a line of HCL is taken apart into tokens. The stream of CodeMirror that stands
-- in a line is a parameter with the operations that the code calls.
use pikoci.Base.{
  ℕ, zero, suc, String, Bool, true, false, not, ◌||◌, ◌&&◌, Option, none, some, List, [], ◌∷◌, ◌++◌,
  any, if◌then◌else◌, ◌==◌, number_equality,
}
use pikoci.JsObject.{prototype_names}
use pikoci.Text.{Chars, codes, same_chars, is_digit}
use pikoci.Editor.Matching.{
  Matcher, plus, literal, some_of, any_of, sequence, either_match, ends_line, quote, or_try,
  is_word,
}

pub record Stream (S : Type 0) : Type 0 where
  pub eol : S → Bool
  pub next : S → Option ℕ × S
  pub match_at : Matcher → S → Option S
  pub skip_to_end : S → S
  pub current : S → Chars

pub record LexState : Type 0 where
  pub in_string : Bool
  pub in_comment : Bool

pub data Style : Type 0 where
  comment : Style
  string : Style
  number : Style
  bracket : Style
  operator : Style
  keyword : Style
  atom : Style
  variable_name : Style

pub record Token (S : Type 0) : Type 0 where
  pub style : Option Style
  pub state : LexState
  pub stream : S

abbrev pub start_state : LexState
start_state = record { in_string = false; in_comment = false }

abbrev pub kw_list : List String
kw_list =
    "job" ∷ "resource" ∷ "resource_type" ∷ "runner_type" ∷ "secret_type" ∷ "service_type"
    ∷ "notification_type" ∷ "notification" ∷ "variable" ∷ "get" ∷ "put" ∷ "notify" ∷ "task"
    ∷ "service" ∷ "plan" ∷ "params" ∷ "start" ∷ "stop" ∷ "ready_check" ∷ "secret" ∷ "on_success"
    ∷ "on_failure" ∷ "on_cancel" ∷ "ensure" ∷ "concurrency" ∷ []

abbrev pub atoms : List String
atoms = "true" ∷ "false" ∷ "null" ∷ []

-- `set[w]` as a condition, for an object literal: the names of the prototype are in it.
unfoldable pub has_key : List String → Chars → Bool
has_key own w = any (λ k. same_chars (codes k) w) (prototype_names ++ own)

-- `.*?\*\/`
unfoldable pub comment_end : Matcher
comment_end [] = none
comment_end (c ∷ s) =
    let later = plus 1 (comment_end s) in
    or_try (literal (codes "*/") (c ∷ s)) (if ends_line c then none else later)

-- `\d+(\.\d+)?`
unfoldable pub number_match : Matcher
number_match =
    either_match (sequence (some_of is_digit ∷ literal (codes ".") ∷ some_of is_digit ∷ []))
      (some_of is_digit)

abbrev pub is_bracket : ℕ → Bool
is_bracket c = any (λ d. c == d) (b'{' ∷ b'}' ∷ b'[' ∷ b']' ∷ b'(' ∷ b')' ∷ [])

abbrev pub is_operator : ℕ → Bool
is_operator c = c == b'=' || c == b':'

unfoldable pub one_of : (ℕ → Bool) → Matcher
one_of p [] = none
one_of p (c ∷ s) = if p c then some 1 else none

abbrev pub begins_word : ℕ → Bool
begins_word c = is_word c && not (is_digit c)

-- `[a-zA-Z_][a-zA-Z0-9_]*`
unfoldable pub word_match : Matcher
word_match = sequence (one_of begins_word ∷ any_of is_word ∷ [])

module _ {S : Type 0} (ops : Stream S) where
  abbrev pub as_token : Option Style → LexState → S → Token S
  as_token style state s = record { style = style; state = state; stream = s }

  -- `if (stream.match(m)) ... else ...`
  abbrev pub if_match : Option S → (S → Token S) → Token S → Token S
  if_match none found other = other
  if_match (some s) found other = found s

  -- The rest of a string: the flag says that it was closed. The number says how often the loop may
  -- run; it runs once at most for each unit of the line.
  unfoldable pub string_rest : ℕ → S → Bool × S
  string_rest zero s = (false, s)
  string_rest (suc n) s =
      let next = ops.next s in
      let skipped = string_rest n (ops.next next.1).1 in
      let rest = string_rest n next.1 in
      if ops.eol s then (false, s) else elim next.0 [
        | none ↦ rest
        | some c ↦ if c == b'\\' then skipped else if c == quote then (true, next.1) else rest
      ]

  unfoldable pub classify : LexState → S → Token S
  classify state s =
      as_token
        (some (
          if has_key kw_list (ops.current s)
          then keyword
          else if has_key atoms (ops.current s)
          then atom
          else variable_name))
        state s

  -- Outside of strings and comments.
  unfoldable pub code_token : LexState → S → Token S
  code_token state s =
      if_match (ops.match_at (literal (codes "/*")) s)
        (as_token (some comment) (record state { in_comment = true }))
        (if_match (ops.match_at (either_match (literal (codes "//")) (literal (codes "#"))) s)
          (λ t. as_token (some comment) state (ops.skip_to_end t))
          (if_match (ops.match_at (literal (quote ∷ [])) s)
            (as_token (some string) (record state { in_string = true }))
            (if_match (ops.match_at number_match s) (as_token (some number) state) (
              if_match (ops.match_at (one_of is_bracket) s) (as_token (some bracket) state) (
                if_match (ops.match_at (one_of is_operator) s) (as_token (some operator) state) (
                  if_match (ops.match_at word_match s) (classify state)
                    (as_token none state (ops.next s).1)))))))

  unfoldable pub token : ℕ → LexState → S → Token S
  token fuel state s =
      let in_text = string_rest fuel s in
      if state.in_comment
      then if_match (ops.match_at comment_end s)
          (as_token (some comment) (record state { in_comment = false }))
          (as_token (some comment) state (ops.skip_to_end s))
      else if state.in_string
      then as_token (some string) (record state { in_string = not in_text.0 }) in_text.1
      else code_token state s
