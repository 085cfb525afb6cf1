-- ===== src/Editor/Braces.antt =====
-- The brace that ends a block.
use mathlib.Core.List.{append_assoc}
use mathlib.Core.Path.{subst}
use pikoci.Base.{
  sym, ◌⊎◌, ◌↔◌, inl, inr, Bool-cases, ==_iff, ◌≢◌, zero, ℕ, suc, ◌+◌, ◌-◌, false, [], ◌∷◌, ◌++◌,
  length, length-append, ◌==◌, number_equality, ◌≡◌, refl, ap, ◌∙◌, arith,
}
use pikoci.Text.{Chars}
use pikoci.Editor.Matching.{slice}
use pikoci.Editor.Block.{block_length, block_content}

-- Texts in which each brace that opens is closed.
pub data Balanced : Chars → Type 0 where
  nothing : Balanced []
  other :
      (c : ℕ) (s : Chars)
      → (c == b'{') ≡ false
      → (c == b'}') ≡ false
      → Balanced s
      → Balanced (c ∷ s)
  nested : (s t : Chars) → Balanced s → Balanced t → Balanced (b'{' ∷ s ++ b'}' ∷ t)

pred_suc : (n : ℕ) → suc (suc n) - 1 ≡ suc n
pred_suc n = omega arith

suc_not_zero : (n : ℕ) → (suc n == 0) ≡ false
suc_not_zero n = ground arith

closed_once :
    (depth : ℕ) (r : Chars)
    → block_length (suc (suc depth)) (b'}' ∷ r) ≡ suc (block_length (suc depth) r)
unfolding block_length
closed_once depth r = rw (pred_suc depth, suc_not_zero depth) refl

braces_passed :
    (depth : ℕ) (s r : Chars)
    → Balanced s
    → block_length (suc depth) (s ++ r) ≡ length s + block_length (suc depth) r
unfolding block_length
braces_passed depth _ r nothing = omega arith
braces_passed depth _ r (other c s e f h) = rw (e, f) (omega (arith, braces_passed depth s r h))
braces_passed depth _ r (nested s t h k) =
    let e : (s ++ b'}' ∷ t) ++ r ≡ s ++ b'}' ∷ (t ++ r) = append_assoc s (b'}' ∷ t) r in
    rw e (
      omega (
        arith,
        braces_passed (suc depth) s (b'}' ∷ (t ++ r)) h,
        closed_once depth (t ++ r),
        braces_passed depth t r k,
        length-append s (b'}' ∷ t),
      ))

slice-append : (s r : Chars) → slice (length s) (s ++ r) ≡ s
slice-append [] r = refl
slice-append (c ∷ s) r = ap (λ t. c ∷ t) (slice-append s r)

block_length_closed : (r : Chars) → block_length 1 (b'}' ∷ r) ≡ 0
unfolding block_length
block_length_closed r = refl

-- If the braces of a text are balanced, then of a document that goes on with this text and a
-- closing brace, the content of the block is exactly the text.
block_content_closed : (s r : Chars) → Balanced s → block_content (s ++ b'}' ∷ r) ≡ s
unfolding block_content
block_content_closed s r h =
    let e : block_length 1 (s ++ b'}' ∷ r) ≡ length s =
      omega (arith, braces_passed 0 s (b'}' ∷ r) h, block_length_closed r) in
    ap (λ n. slice n (s ++ b'}' ∷ r)) e ∙ slice-append s (b'}' ∷ r)

-- Texts that close as many braces as the depth says, each behind a balanced text, and end balanced.
abbrev IsLayered : ℕ → Chars → Type 0
IsLayered zero s = Balanced s
IsLayered (suc depth) s =
    (a : Chars) × (b : Chars) × Balanced a × (s ≡ a ++ b'}' ∷ b) × IsLayered depth b

cons-IsLayered :
    (depth c : ℕ) (s : Chars)
    → (c == b'{') ≡ false
    → (c == b'}') ≡ false
    → IsLayered depth s
    → IsLayered depth (c ∷ s)
cons-IsLayered zero c s e f h = other c s e f h
cons-IsLayered (suc depth) c s e f (a, b, h, g, k) =
    (c ∷ a, b, other c a e f h, ap (λ t. c ∷ t) g, k)

open-IsLayered : (depth : ℕ) (s : Chars) → IsLayered (suc depth) s → IsLayered depth (b'{' ∷ s)
open-IsLayered zero s (a, b, h, g, k) = subst Balanced (ap (λ t. b'{' ∷ t) (sym g)) (nested a b h k)
open-IsLayered (suc depth) s (a, b, h, g, (a', b', h', g', k)) = (
  b'{' ∷ a ++ b'}' ∷ a',
  b',
  nested a a' h h',
  ap (λ t. b'{' ∷ t)
      (g ∙ ap (λ t. a ++ b'}' ∷ t) g' ∙ sym (append_assoc a (b'}' ∷ a') (b'}' ∷ b'))),
  k,
)

-- Where the braces of a text end it at the depth.
record Scanned (depth : ℕ) (s : Chars) (n : ℕ) : Type 0 where
  rest : Chars
  whole : s ≡ slice n s ++ b'}' ∷ rest
  layered : IsLayered depth (slice n s)

scan_on :
    (depth depth' c : ℕ) (s : Chars) (n : ℕ)
    → (IsLayered depth (slice n s) → IsLayered depth' (c ∷ slice n s))
    → (n ≡ length s) ⊎ Scanned depth s n
    → (suc n ≡ length (c ∷ s)) ⊎ Scanned depth' (c ∷ s) (suc n)
scan_on depth depth' c s n f (inl e) = inl (ap suc e)
scan_on depth depth' c s n f (inr h) =
    inr (record { rest = h.rest; whole = ap (λ t. c ∷ t) h.whole; layered = f h.layered })

close-IsLayered : (depth : ℕ) (s : Chars) → IsLayered depth s → IsLayered (suc depth) (b'}' ∷ s)
close-IsLayered depth s h = ([], s, nothing, refl, h)

at_open :
    (depth : ℕ) (s : Chars)
    → block_length (suc depth) (b'{' ∷ s) ≡ suc (block_length (suc (suc depth)) s)
unfolding block_length
at_open depth s = refl

at_other :
    (depth c : ℕ) (s : Chars)
    → (c == b'{') ≡ false
    → (c == b'}') ≡ false
    → block_length (suc depth) (c ∷ s) ≡ suc (block_length (suc depth) s)
unfolding block_length
at_other depth c s e f = rw (e, f) refl

at_last : (s : Chars) → block_length 1 (b'}' ∷ s) ≡ 0
unfolding block_length
at_last s = refl

at_nothing : (depth : ℕ) → block_length depth [] ≡ 0
unfolding block_length
at_nothing depth = refl

abbrev Closing : ℕ → Chars → Type 0
Closing depth s =
    (block_length (suc depth) s ≡ length s) ⊎ Scanned depth s (block_length (suc depth) s)

moved-Closing :
    {depth n : ℕ} {s : Chars}
    → block_length (suc depth) s ≡ n
    → (n ≡ length s) ⊎ Scanned depth s n
    → Closing depth s
moved-Closing {depth} {n} {s} e h = subst (λ m. (m ≡ length s) ⊎ Scanned depth s m) (sym e) h

scanned_close : (depth : ℕ) (s : Chars) → ((d : ℕ) → Closing d s) → Closing depth (b'}' ∷ s)
scanned_close zero s h =
    moved-Closing (at_last s) (inr (record { rest = s; whole = refl; layered = nothing }))
scanned_close (suc depth) s h =
    moved-Closing (closed_once depth s)
      (scan_on depth (suc depth) b'}' s _ (close-IsLayered depth _) (h depth))

scanned :
    (depth : ℕ) (s : Chars)
    → (block_length (suc depth) s ≡ length s) ⊎ Scanned depth s (block_length (suc depth) s)
scanned depth [] = inl (at_nothing (suc depth))
scanned depth (c ∷ s) = elim (Bool-cases (c == b'{')) [
  | inl e ↦ subst (Closing depth) (sym (ap (λ d. d ∷ s) ((==_iff c b'{').0 e))) (
      moved-Closing (at_open depth s)
        (scan_on (suc depth) depth b'{' s _ (open-IsLayered depth _) (scanned (suc depth) s)))
  | inr e ↦ elim (Bool-cases (c == b'}')) [
    | inl f ↦
        subst (Closing depth) (sym (ap (λ d. d ∷ s) ((==_iff c b'}').0 f)))
          (scanned_close depth s (λ d. scanned d s))
    | inr f ↦
        moved-Closing (at_other depth c s e f)
          (scan_on depth depth c s _ (cons-IsLayered depth c _ e f) (scanned depth s))
  ]
]

slice_all : (s : Chars) → slice (length s) s ≡ s
slice_all [] = refl
slice_all (c ∷ s) = ap (λ t. c ∷ t) (slice_all s)

-- The content ends at the closing brace, or there is none.
abbrev pub IsContent : Chars → Chars → Type 0
IsContent content s =
    ((rest : Chars) × Balanced content × (s ≡ content ++ b'}' ∷ rest))
    ⊎ ((content ≡ s) × ((a b : Chars) → Balanced a → s ≢ a ++ b'}' ∷ b))

never_closed : (s : Chars) → block_content s ≡ s → (a b : Chars) → Balanced a → s ≢ a ++ b'}' ∷ b
never_closed s e a b h f =
    let g : a ≡ s = sym (block_content_closed a b h) ∙ ap block_content (sym f) ∙ e in
    absurd (omega (arith, ap length g, ap length f, length-append a (b'}' ∷ b)))

block_content_lem : (s : Chars) → IsContent (block_content s) s
unfolding block_content
block_content_lem s = elim (scanned 0 s) [
  | inl e ↦
      let f : block_content s ≡ s = ap (λ n. slice n s) e ∙ slice_all s in inr (f, never_closed s f)
  | inr h ↦ inl (h.rest, h.layered, h.whole)
]

-- Of the text behind the brace that opens a block, the content of the block is the text up to a
-- closing brace, if that text is balanced, or all of it, if no balanced text stands in front of a
-- closing brace; and nothing else is.
pub block_content_iff : (content s : Chars) → IsContent content s ↔ (content ≡ block_content s)
block_content_iff content s = (
  λ h. elim h [
    | inl (rest, b, e) ↦ sym (ap block_content e ∙ block_content_closed content rest b)
    | inr (e, n) ↦ elim (block_content_lem s) [
      | inl (rest, b, f) ↦ absurd (n _ rest b f)
      | inr (f, _) ↦ e ∙ sym f
    ]
  ],
  λ e. subst (λ c. IsContent c s) (sym e) (block_content_lem s),
)
