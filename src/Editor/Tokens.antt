-- ===== src/Editor/Tokens.antt =====
-- The tokens of a line, one after another.
use pikoci.Base.{
  ℕ, zero, suc, ◌+◌, ◌≤◌, Bool, true, false, Option, none, some, [], ◌∷◌, length, Option-cases,
  if◌then◌else◌, ◌≡◌, ◌≢◌, ◌↔◌, refl, ap, ◌∙◌, sym, arith, ◌⊎◌, inl, inr, List-cases, Bool-cases,
  ◌==◌, number_equality,
}
use pikoci.Text.{Chars, codes, is_digit}
use pikoci.Editor.Matching.{Matcher, drop, quote, is_word, ends_line}
use pikoci.Editor.Fits.{
  Takes, or_try-IsWithin, if-IsWithin, plus-IsWithin, wider-IsWithin, literal-Takes, some_of-Takes,
  any_of-Takes, sequence-Takes, sequence_nil-Takes, either_match-Takes,
}
use pikoci.Editor.Attribute.{fewer-Takes, drop-drop}
use pikoci.Editor.Found.{within_some, length_left}
use pikoci.Editor.Highlight.{
  Stream, Token, if_match, string_rest, comment_end, number_match, one_of, begins_word, word_match,
}

-- What the stream promises, where `rest` is what it has not passed yet.
pub record StreamLaws {S : Type 0} (ops : Stream S) (rest : S → Chars) : Type 0 where
  pub eol_iff : (s : S) → (ops.eol s ≡ true) ↔ (rest s ≡ [])
  pub next_end : (s : S) → rest s ≡ [] → rest (ops.next s).1 ≡ []
  pub next_some :
      (s : S) (c : ℕ) (cs : Chars)
      → rest s ≡ c ∷ cs
      → ((ops.next s).0 ≡ some c) × (rest (ops.next s).1 ≡ cs)
  pub match_none : (m : Matcher) (s : S) → m (rest s) ≡ none → ops.match_at m s ≡ none
  pub match_some :
      (m : Matcher) (s : S) (n : ℕ)
      → m (rest s) ≡ some n
      → (t : S) × (ops.match_at m s ≡ some t) × (rest t ≡ drop n (rest s))
  pub skipped : (s : S) → rest (ops.skip_to_end s) ≡ []

-- The second text is the first without at least so many units at its front.
pub record Advanced (low : ℕ) (a b : Chars) : Type 0 where
  pub taken : ℕ
  pub dropped : b ≡ drop taken a
  pub enough : low ≤ taken
  pub there : taken ≤ length a

still : (a b : Chars) → b ≡ a → Advanced 0 a b
still a b e = record { taken = 0; dropped = e; enough = omega arith; there = omega arith }

pub both-Advanced :
    (low low' : ℕ) (a b c : Chars)
    → Advanced low a b
    → Advanced low' b c
    → Advanced (low + low') a c
both-Advanced low low' a b c h k = record {
  taken = h.taken + k.taken;
  dropped = k.dropped ∙ ap (drop k.taken) h.dropped ∙ drop-drop k.taken h.taken a;
  enough = omega (arith, h.enough, k.enough);
  there = omega (arith, h.there, k.there, length_left h.taken a, ap length h.dropped);
}

pub less-Advanced : (low low' : ℕ) (a b : Chars) → low' ≤ low → Advanced low a b → Advanced low' a b
less-Advanced low low' a b f h = record {
  taken = h.taken;
  dropped = h.dropped;
  enough = omega (arith, f, h.enough);
  there = h.there;
}

drop_all : (a : Chars) → drop (length a) a ≡ []
drop_all [] = refl
drop_all (c ∷ a) = drop_all a

pub to_end : (a b : Chars) → a ≢ [] → b ≡ [] → Advanced 1 a b
to_end [] b n e = absurd (n refl)
to_end (c ∷ a) b n e = record {
  taken = suc (length a);
  dropped = e ∙ sym (drop_all a);
  enough = omega arith;
  there = omega arith;
}

pub comment_end-Takes : Takes 1 comment_end
unfolding comment_end
comment_end-Takes [] = tt
comment_end-Takes (c ∷ s) =
    or_try-IsWithin 1 (suc (length s)) _ _
      (fewer-Takes 2 1 _ (omega arith) (literal-Takes (codes "*/")) (c ∷ s))
      (if-IsWithin 1 (suc (length s)) (ends_line c) _ _ tt (
        wider-IsWithin 2 1 (1 + length s) (suc (length s)) _ (omega arith) (omega arith)
          (plus-IsWithin 1 1 (length s) (comment_end s) (comment_end-Takes s))))

pub number_match-Takes : Takes 1 number_match
unfolding number_match
number_match-Takes =
    either_match-Takes 1 _ _
      (fewer-Takes _ 1 _ (omega arith) (
        sequence-Takes _ _ _ _ (some_of-Takes is_digit) (
          sequence-Takes _ _ _ _ (literal-Takes _)
            (sequence-Takes _ _ _ _ (some_of-Takes is_digit) sequence_nil-Takes))))
      (some_of-Takes is_digit)

pub one_of-Takes : (p : ℕ → Bool) → Takes 1 (one_of p)
unfolding one_of
one_of-Takes p [] = tt
one_of-Takes p (c ∷ s) = if-IsWithin 1 (suc (length s)) (p c) _ _ (omega arith, omega arith) tt

pub word_match-Takes : Takes 1 word_match
unfolding word_match
word_match-Takes = fewer-Takes _ 1 _ (omega arith) (
    sequence-Takes _ _ _ _ (one_of-Takes begins_word)
      (sequence-Takes _ _ _ _ (any_of-Takes is_word) sequence_nil-Takes))

module _ {S : Type 0} (ops : Stream S) (rest : S → Chars) (laws : StreamLaws ops rest) where
  pub match_at-Advanced :
      (low : ℕ) (m : Matcher) (s t : S)
      → Takes low m
      → ops.match_at m s ≡ some t
      → Advanced low (rest s) (rest t)
  match_at-Advanced low m s t h e = elim (Option-cases (m (rest s))) [
    | inl f ↦ cc (e, laws.match_none m s f)
    | inr (n, f) ↦
        let (u, g, k) = laws.match_some m s n f in
        let (enough, there) = within_some low _ n _ (h (rest s)) f in
        let same : t ≡ u = cc (e, g) in
        record { taken = n; dropped = ap rest same ∙ k; enough = enough; there = there }
  ]

  pub next_one :
      (s : S) (c : ℕ) (cs : Chars) → rest s ≡ c ∷ cs → Advanced 1 (rest s) (rest (ops.next s).1)
  next_one s c cs e = record {
    taken = 1;
    dropped = (laws.next_some s c cs e).1 ∙ sym (ap (drop 1) e);
    enough = omega arith;
    there = omega (arith, ap length e);
  }

  pub next-Advanced : (s : S) → Advanced 0 (rest s) (rest (ops.next s).1)
  next-Advanced s = elim (List-cases (rest s)) [
    | inl e ↦ still _ _ (laws.next_end s e ∙ sym e)
    | inr (c, cs, e) ↦ less-Advanced 1 0 _ _ (omega arith) (next_one s c cs e)
  ]

  -- A string that is passed so far: closed, or to the end of the line.
  pub record Passed (low : ℕ) (s : S) (r : Bool × S) : Type 0 where
    pub advanced : Advanced low (rest s) (rest r.1)
    pub ended : (r.0 ≡ true) ⊎ (rest r.1 ≡ [])

  behind-Passed :
      (low low' : ℕ) (s t : S) (r : Bool × S)
      → Advanced low (rest s) (rest t)
      → Passed low' t r
      → Passed (low + low') s r
  behind-Passed low low' s t r h k = record {
    advanced = both-Advanced low low' _ _ _ h k.advanced;
    ended = k.ended;
  }

  either-Passed :
      (low : ℕ) (s : S) (b : Bool) (r u : Bool × S)
      → Passed low s r
      → Passed low s u
      → Passed low s (if b then r else u)
  either-Passed low s true r u h k = h
  either-Passed low s false r u h k = k

  not_at_end : (s : S) (c : ℕ) (cs : Chars) → rest s ≡ c ∷ cs → ops.eol s ≡ false
  not_at_end s c cs e = elim (Bool-cases (ops.eol s)) [
    | inl f ↦ let g : rest s ≡ [] = (laws.eol_iff s).0 f in cc
    | inr f ↦ f
  ]

  left_over :
      (low n : ℕ) (s t : S)
      → Advanced (suc low) (rest s) (rest t)
      → length (rest s) ≤ suc n
      → length (rest t) ≤ n
  left_over low n s t h k =
      omega (arith, k, h.enough, h.there, length_left h.taken (rest s), ap length h.dropped)

  string_step :
      (n : ℕ) (s : S) (c : ℕ) (cs : Chars)
      → ((t : S) → length (rest t) ≤ n → Passed 0 t (string_rest ops n t))
      → rest s ≡ c ∷ cs
      → length (rest s) ≤ suc n
      → Passed 1 s (string_rest ops (suc n) s)
  unfolding string_rest
  string_step n s c cs ih e h =
      let t = (ops.next s).1 in
      let u = (ops.next t).1 in
      let one : Advanced 1 (rest s) (rest t) = next_one s c cs e in
      let two : Advanced 1 (rest s) (rest u) = both-Advanced 1 0 _ _ _ one (next-Advanced t) in
      rw (not_at_end s c cs e, (laws.next_some s c cs e).0)
        (either-Passed 1 s (c == b'\\') _ _
          (behind-Passed 1 0 s u _ two (ih u (left_over 0 n s u two h)))
          (either-Passed 1 s (c == quote) _ _ (record { advanced = one; ended = inl refl })
            (behind-Passed 1 0 s t _ one (ih t (left_over 0 n s t one h)))))

  string_end : (n : ℕ) (s : S) → rest s ≡ [] → Passed 0 s (string_rest ops n s)
  unfolding string_rest
  string_end zero s e = record { advanced = still _ _ refl; ended = inr e }
  string_end (suc n) s e =
      rw ((laws.eol_iff s).1 e) (record { advanced = still _ _ refl; ended = inr e })

  string_rest-Passed : (n : ℕ) (s : S) → length (rest s) ≤ n → Passed 0 s (string_rest ops n s)
  string_rest-Passed zero s h = elim (List-cases (rest s)) [
    | inl e ↦ string_end zero s e
    | inr (c, cs, e) ↦ absurd (omega (arith, h, ap length e))
  ]
  string_rest-Passed (suc n) s h = elim (List-cases (rest s)) [
    | inl e ↦ string_end (suc n) s e
    | inr (c, cs, e) ↦
        let p = string_step n s c cs (string_rest-Passed n) e h in
        record { advanced = less-Advanced 1 0 _ _ (omega arith) p.advanced; ended = p.ended }
  ]

  pub string_rest_one-Passed :
      (n : ℕ) (s : S) → length (rest s) ≤ n → rest s ≢ [] → Passed 1 s (string_rest ops n s)
  string_rest_one-Passed zero s h k = elim (List-cases (rest s)) [
    | inl e ↦ absurd (k e)
    | inr (c, cs, e) ↦ absurd (omega (arith, h, ap length e))
  ]
  string_rest_one-Passed (suc n) s h k = elim (List-cases (rest s)) [
    | inl e ↦ absurd (k e)
    | inr (c, cs, e) ↦ string_step n s c cs (string_rest-Passed n) e h
  ]

  pub if_match_found :
      (P : Token S → Type 0) (r : Option S) (found : S → Token S) (other : Token S)
      → ((t : S) → r ≡ some t → P (found t))
      → P other
      → P (if_match ops r found other)
  if_match_found P none found other h k = k
  if_match_found P (some t) found other h k = h t refl
