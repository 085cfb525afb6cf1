-- ===== src/Editor/Attribute.antt =====
-- Where `findBlockAttribute` finds an attribute: in the block, and at the attribute's name.
use pikoci.Base.{
  ℕ, zero, suc, ◌+◌, ◌≤◌, Bool, true, false, Option, none, some, [], ◌∷◌, length, if◌then◌else◌,
  ◌==◌, number_equality, ◌≡◌, refl, ap, ◌∙◌, sym, arith, ◌⊎◌, inl, inr, ==_iff,
}
use pikoci.Text.{Chars}
use pikoci.Editor.Matching.{
  Matcher, drop, slice, plus, literal, then_match, sequence, is_space, run_length, or_try, quote,
  ends_line,
}
use pikoci.Editor.Block.{
  Groups, block_header, quoted_rest, is_on_line, value, assignment, groups, behind_space,
  attribute_at,
}
use pikoci.Editor.Fits.{
  IsWithin, Takes, wider-IsWithin, if-IsWithin, plus-IsWithin, literal-Takes, any_of-Takes,
  some_of-Takes, sequence_nil-Takes, sequence-Takes, either_match-Takes, spaced-Takes,
}

pub fewer-Takes : (low low' : ℕ) (m : Matcher) → low' ≤ low → Takes low m → Takes low' m
fewer-Takes low low' m f h s =
    wider-IsWithin low low' (length s) (length s) (m s) f (omega arith) (h s)

pub block_header-Takes : (type name : Chars) → Takes 0 (block_header type name)
unfolding block_header
block_header-Takes type name = fewer-Takes _ 0 _ (omega arith) (
    sequence-Takes _ _ _ _ (literal-Takes type) (
      sequence-Takes _ _ _ _ (some_of-Takes is_space) (
        sequence-Takes _ _ _ _ (literal-Takes _) (
          sequence-Takes _ _ _ _ (literal-Takes name) (
            sequence-Takes _ _ _ _ (literal-Takes _) (
              sequence-Takes _ _ _ _ (any_of-Takes is_space)
                (sequence-Takes _ _ _ _ (literal-Takes _) sequence_nil-Takes)))))))

shifted-IsWithin :
    (n low high : ℕ) (r : Option ℕ) → IsWithin low high r → IsWithin low (n + high) (plus n r)
shifted-IsWithin n low high r h =
    wider-IsWithin (n + low) low (n + high) (n + high) (plus n r) (omega arith) (omega arith)
      (plus-IsWithin n low high r h)

quoted_rest-Takes : Takes 0 quoted_rest
unfolding quoted_rest
quoted_rest-Takes [] = tt
quoted_rest-Takes (c ∷ []) = if-IsWithin 0 1 (c == quote) _ _ (omega arith, omega arith) tt
quoted_rest-Takes (c ∷ d ∷ s) =
    let high = suc (suc (length s)) in
    if-IsWithin 0 high (c == quote) _ _ (omega arith, omega arith)
      (if-IsWithin 0 high (c == b'\\') (if ends_line d then none else plus 2 (quoted_rest s))
        (plus 1 (quoted_rest (d ∷ s)))
        (if-IsWithin 0 high (ends_line d) none (plus 2 (quoted_rest s)) tt (
          wider-IsWithin 0 0 (2 + length s) high _ (omega arith) (omega arith)
            (shifted-IsWithin 2 0 (length s) (quoted_rest s) (quoted_rest-Takes s))))
        (wider-IsWithin 0 0 (1 + length (d ∷ s)) high _ (omega arith) (omega arith) (
          shifted-IsWithin 1 0 (length (d ∷ s)) (quoted_rest (d ∷ s)) (quoted_rest-Takes (d ∷ s)))))

value-Takes : Takes 0 value
unfolding value
value-Takes =
    either_match-Takes 0 _ _
      (fewer-Takes _ 0 _ (omega arith) (
        sequence-Takes _ _ _ _ (literal-Takes _)
          (sequence-Takes _ _ _ _ quoted_rest-Takes sequence_nil-Takes)))
      (fewer-Takes 1 0 _ (omega arith) (some_of-Takes is_on_line))

pub assignment-Takes : (attribute : Chars) → Takes 1 (assignment attribute)
unfolding assignment
assignment-Takes attribute = fewer-Takes _ 1 _ (omega arith) (
    sequence-Takes _ _ _ _ (literal-Takes attribute) (
      sequence-Takes _ _ _ _ (any_of-Takes is_space) (
        sequence-Takes _ _ _ _ (literal-Takes _)
          (sequence-Takes _ _ _ _ (spaced-Takes 0 value value-Takes) sequence_nil-Takes))))

counted :
    (b : Bool) (r : Option ℕ) (n : ℕ)
    → (if b then plus 1 r else none) ≡ some n
    → (b ≡ true) × (m : ℕ) × (r ≡ some m) × (n ≡ 1 + m)
counted true none n h = cc
counted true (some m) n h = (refl, m, refl, cc)
counted false r n h = cc

pub literal-eq-some :
    (t s : Chars) (n : ℕ) → literal t s ≡ some n → (n ≡ length t) × (slice (length t) s ≡ t)
unfolding literal
literal-eq-some [] s n h = (cc, refl)
literal-eq-some (c ∷ t) [] n h = cc
literal-eq-some (c ∷ t) (d ∷ s) n h =
    let (e, m, f, g) = counted (c == d) (literal t s) n h in
    let (l, k) = literal-eq-some t s m f in
    (
      omega (arith, l, g),
      ap (λ x. x ∷ slice (length t) s) (sym ((==_iff c d).0 e)) ∙ ap (λ r. c ∷ r) k,
    )

-- What begins a slice begins the whole.
literal-slice :
    (t : Chars) (k : ℕ) (s : Chars) (n : ℕ) → literal t (slice k s) ≡ some n → literal t s ≡ some n
unfolding literal
literal-slice [] k s n h = h
literal-slice (c ∷ t) zero s n h = cc
literal-slice (c ∷ t) (suc k) [] n h = cc
literal-slice (c ∷ t) (suc k) (d ∷ s) n h =
    let (e, m, f, g) = counted (c == d) (literal t (slice k s)) n h in
    rw (e, literal-slice t k s m f) (ap some (sym g))

pub drop-slice : (j k : ℕ) (s : Chars) → (m : ℕ) × (drop j (slice k s) ≡ slice m (drop j s))
drop-slice zero k s = (k, refl)
drop-slice (suc j) zero s = (0, refl)
drop-slice (suc j) (suc k) [] = (0, refl)
drop-slice (suc j) (suc k) (c ∷ s) = drop-slice j k s

drop_nil : (i : ℕ) → drop i [] ≡ []
drop_nil zero = refl
drop_nil (suc i) = refl

add_front : (i j : ℕ) → suc (j + i) ≡ suc j + i
add_front i j = omega arith

pub drop-drop : (i j : ℕ) (s : Chars) → drop i (drop j s) ≡ drop (j + i) s
drop-drop i zero s = ap (λ n. drop n s) (omega arith)
drop-drop i (suc j) [] = drop_nil i ∙ sym (drop_nil (suc j + i))
drop-drop i (suc j) (c ∷ s) = drop-drop i j s ∙ ap (λ n. drop n (c ∷ s)) (add_front i j)

pub length-slice : (k : ℕ) (s : Chars) → length (slice k s) ≤ k
length-slice zero s = omega arith
length-slice (suc k) [] = omega arith
length-slice (suc k) (c ∷ s) = omega (arith, length-slice k s)

if_eq-some {ℓ} :
    {A : Type ℓ} (b : Bool) (r : Option A) (g : A) → (if b then r else none) ≡ some g → r ≡ some g
if_eq-some true r g h = h
if_eq-some false r g h = cc

groups-eq-some :
    (n : ℕ) (r : Option ℕ) (g : Groups) → groups n r ≡ some g → (g.before ≡ n) × (r ≡ some g.taken)
groups-eq-some n none g h = cc
groups-eq-some n (some k) g h = (cc, cc)

assigned_at :
    (attribute : Chars) (n m : ℕ) (s t : Chars) (g : Groups)
    → groups n (assignment attribute s) ≡ some g
    → n ≡ m
    → drop m t ≡ s
    → assignment attribute (drop g.before t) ≡ some g.taken
assigned_at attribute n m s t g h e f =
    let (b, k) = groups-eq-some n (assignment attribute s) g h in
    ap (λ i. assignment attribute (drop i t)) (b ∙ e) ∙ ap (assignment attribute) f ∙ k

either_found {ℓ} :
    {A : Type ℓ} (a b : Option A) (g : A) → or_try a b ≡ some g → (a ≡ some g) ⊎ (b ≡ some g)
either_found none b g h = inr h
either_found (some a) b g h = inl h

first_found :
    (attribute : Chars) (i : ℕ) (s : Chars) (g : Groups)
    → (if i == 0 then behind_space attribute 0 s else none) ≡ some g
    → assignment attribute (drop g.before s) ≡ some g.taken
unfolding behind_space
first_found attribute i s g h =
    assigned_at attribute _ _ _ s g (if_eq-some (i == 0) (behind_space attribute 0 s) g h)
      (omega arith) refl

-- What `attribute_at` finds is an assignment behind the white space.
pub attribute_at_found :
    (attribute : Chars) (i : ℕ) (s : Chars) (g : Groups)
    → attribute_at attribute i s ≡ some g
    → assignment attribute (drop g.before s) ≡ some g.taken
unfolding attribute_at behind_space
attribute_at_found attribute i [] g h = elim (either_found _ none g h) [
  | inl e ↦ first_found attribute i [] g e
  | inr e ↦ cc
]
attribute_at_found attribute i (c ∷ s) g h = elim (either_found _ _ g h) [
  | inl e ↦ first_found attribute i (c ∷ s) g e
  | inr e ↦
      assigned_at attribute _ (suc (run_length is_space s)) _ (c ∷ s) g
        (if_eq-some (c == 10) (behind_space attribute 1 s) g e) (omega arith) refl
]

then_found :
    (r : Option ℕ) (k : ℕ → Option ℕ) (n : ℕ) → then_match r k ≡ some n → (m : ℕ) × (r ≡ some m)
then_found none k n h = cc
then_found (some m) k n h = (m, refl)

pub assigned_name :
    (attribute s : Chars) (k n : ℕ)
    → assignment attribute (slice k s) ≡ some n
    → slice (length attribute) s ≡ attribute
unfolding assignment sequence
assigned_name attribute s k n h =
    let (m, e) = then_found (literal attribute (slice k s)) _ n h in
    (literal-eq-some attribute s m (literal-slice attribute k s m e)).1
