-- ===== src/Editor/Progress.antt =====
-- Each token of `hclLanguage` goes on in its line.
use pikoci.Base.{
  ℕ, ◌≤◌, Bool, true, false, not, ◌&&◌, some, [], length, if◌then◌else◌, ◌≡◌, ◌≢◌, refl, arith, ◌⊎◌,
  inl, inr, List-cases,
}
use pikoci.Text.{Chars, codes}
use pikoci.Editor.Matching.{Matcher, literal, either_match}
use pikoci.Editor.Fits.{Takes, literal-Takes, either_match-Takes}
use pikoci.Editor.Attribute.{fewer-Takes}
use pikoci.Editor.Highlight.{
  Stream, LexState, Token, comment, string, as_token, if_match, string_rest, classify, code_token,
  token, comment_end, is_bracket, is_operator,
}
use pikoci.Editor.Tokens.{
  StreamLaws, Advanced, to_end, comment_end-Takes, number_match-Takes, one_of-Takes,
  word_match-Takes, match_at-Advanced, next_one, string_rest_one-Passed, if_match_found,
}

-- Not in a string and in a comment at once.
abbrev pub IsApart : LexState → Type 0
IsApart state = (state.in_string && state.in_comment) ≡ false

-- A token takes something from the line, and a string or a comment that goes on behind it goes on
-- at the end of the line.
pub record IsToken {S : Type 0} (rest : S → Chars) (state : LexState) (s : S) (t : Token S)
    : Type 0 where
  pub advanced : Advanced 1 (rest s) (rest t.stream)
  pub apart : IsApart t.state
  pub string_ends : state.in_string ≡ true → (t.state.in_string ≡ false) ⊎ (rest t.stream ≡ [])
  pub comment_ends : state.in_comment ≡ true → (t.state.in_comment ≡ false) ⊎ (rest t.stream ≡ [])
  pub in_comment : state.in_comment ≡ true → t.style ≡ some comment

slashes : Takes 1 (either_match (literal (codes "//")) (literal (codes "#")))
slashes =
    either_match-Takes 1 _ _ (fewer-Takes 2 1 _ (omega arith) (literal-Takes (codes "//")))
      (literal-Takes (codes "#"))

closed_or_end : (b : Bool) (P : Type 0) → (b ≡ true) ⊎ P → (not b ≡ false) ⊎ P
closed_or_end b P (inl e) = inl (rw e refl)
closed_or_end b P (inr h) = inr h

module _ {S : Type 0} (ops : Stream S) (rest : S → Chars) (laws : StreamLaws ops rest) where
  outside-IsToken :
      (state : LexState) (s : S) (t : Token S)
      → state.in_string ≡ false
      → state.in_comment ≡ false
      → Advanced 1 (rest s) (rest t.stream)
      → IsApart t.state
      → IsToken rest state s t
  outside-IsToken state s t f g h k = record {
    advanced = h;
    apart = k;
    string_ends = λ e. cc;
    comment_ends = λ e. cc;
    in_comment = λ e. cc;
  }

  some_next : (s : S) → rest s ≢ [] → Advanced 1 (rest s) (rest (ops.next s).1)
  some_next s n = elim (List-cases (rest s)) [
    | inl e ↦ absurd (n e)
    | inr (c, cs, e) ↦ next_one ops rest laws s c cs e
  ]

  module _ (state : LexState) (s : S) (n : rest s ≢ []) (f : state.in_string ≡ false)
      (g : state.in_comment ≡ false) where
    ok :
        (t : Token S)
        → Advanced 1 (rest s) (rest t.stream)
        → IsApart t.state
        → IsToken rest state s t
    ok t h k = outside-IsToken state s t f g h k

    taken_by :
        (m : Matcher) (t : S) → Takes 1 m → ops.match_at m s ≡ some t → Advanced 1 (rest s) (rest t)
    taken_by m t h e = match_at-Advanced ops rest laws 1 m s t h e

    apart : IsApart state
    apart = rw f refl

    found_or :
        (m : Matcher) (found : S → Token S) (other : Token S)
        → ((t : S) → Advanced 1 (rest s) (rest t) → IsToken rest state s (found t))
        → Takes 1 m
        → IsToken rest state s other
        → IsToken rest state s (if_match ops (ops.match_at m s) found other)
    found_or m found other h k l =
        if_match_found ops rest laws (IsToken rest state s) (ops.match_at m s) found other
          (λ t e. h t (taken_by m t k e)) l

    code_token-IsToken : IsToken rest state s (code_token ops state s)
    unfolding code_token classify
    code_token-IsToken =
        found_or _ _ _ (λ t a. ok _ a (rw f refl))
          (fewer-Takes 2 1 _ (omega arith) (literal-Takes _))
          (found_or _ _ _ (λ t a. ok _ (to_end _ _ n (laws.skipped t)) apart) slashes
            (found_or _ _ _ (λ t a. ok _ a (rw g refl)) (literal-Takes _)
              (found_or _ _ _ (λ t a. ok _ a apart) number_match-Takes
                (found_or _ _ _ (λ t a. ok _ a apart) (one_of-Takes is_bracket)
                  (found_or _ _ _ (λ t a. ok _ a apart) (one_of-Takes is_operator)
                    (found_or _ _ _ (λ t a. ok _ a apart) word_match-Takes
                      (ok _ (some_next s n) apart)))))))

  -- In a comment.
  comment-IsToken :
      (state : LexState) (s : S)
      → rest s ≢ []
      → state.in_string ≡ false
      → state.in_comment ≡ true
      → IsToken rest state s (
          if_match ops
            (ops.match_at comment_end s)
            (as_token ops (some comment) (record state { in_comment = false }))
            (as_token ops (some comment) state (ops.skip_to_end s)))
  comment-IsToken state s n f g =
      if_match_found ops rest laws (IsToken rest state s) _ _ _
        (λ t e. record {
          advanced = match_at-Advanced ops rest laws 1 comment_end s t comment_end-Takes e;
          apart = rw f refl;
          string_ends = λ e. cc;
          comment_ends = λ e. inl refl;
          in_comment = λ e. refl;
        })
        (record {
          advanced = to_end _ _ n (laws.skipped s);
          apart = rw f refl;
          string_ends = λ e. cc;
          comment_ends = λ e. inr (laws.skipped s);
          in_comment = λ e. refl;
        })

  not_both : (state : LexState) → IsApart state → state.in_comment ≡ true → state.in_string ≡ false
  not_both state a e = ground (arith, a, e)

  if_token :
      (state : LexState) (s : S) (b : Bool) (t u : Token S)
      → (b ≡ true → IsToken rest state s t)
      → (b ≡ false → IsToken rest state s u)
      → IsToken rest state s (if b then t else u)
  if_token state s true t u h k = h refl
  if_token state s false t u h k = k refl

  string-IsToken :
      (fuel : ℕ) (state : LexState) (s : S)
      → length (rest s) ≤ fuel
      → rest s ≢ []
      → state.in_comment ≡ false
      → IsToken rest state s (
          as_token ops
            (some string)
            (record state { in_string = not (string_rest ops fuel s).0 })
            (string_rest ops fuel s).1)
  string-IsToken fuel state s h n g =
      let p = string_rest_one-Passed ops rest laws fuel s h n in
      record {
        advanced = p.advanced;
        apart = ground (arith, g);
        string_ends = λ e. closed_or_end _ _ p.ended;
        comment_ends = λ e. cc;
        in_comment = λ e. cc;
      }

  -- If the stream keeps its promises, is not at the end of its line, and the loop may run as often
  -- as units are left, then from a state that is not in a string and a comment at once each token
  -- takes something from the line and leaves such a state; a string or a comment that goes on
  -- behind it goes on at the end of the line, and in a comment the style is that of comments.
  pub token-IsToken :
      (fuel : ℕ) (state : LexState) (s : S)
      → length (rest s) ≤ fuel
      → rest s ≢ []
      → IsApart state
      → IsToken rest state s (token ops fuel state s)
  unfolding token
  token-IsToken fuel state s h n a =
      if_token state s state.in_comment _ _ (λ g. comment-IsToken state s n (not_both state a g) g)
        (λ g.
          if_token state s state.in_string _ _ (λ f. string-IsToken fuel state s h n g)
            (λ f. code_token-IsToken state s n f g))
