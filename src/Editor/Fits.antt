-- ===== src/Editor/Fits.antt =====
-- How much a matcher takes: at least so many units, and no more than there are.
use pikoci.Base.{
  ℕ, zero, suc, ◌+◌, ◌≤◌, Bool, true, false, Option, none, some, List, [], ◌∷◌, length,
  if◌then◌else◌, ◌==◌, number_equality, ◌≡◌, arith, ◌⊎◌, inl, inr,
}
use pikoci.Text.{Chars}
use pikoci.Editor.Matching.{
  Matcher, drop, plus, literal, run_length, positive, any_of, some_of, then_match, sequence, or_try,
  either_match, is_space, spaced, exec, at,
}

abbrev pub IsWithin : ℕ → ℕ → Option ℕ → Type 0
IsWithin low high none = Unit
IsWithin low high (some n) = (low ≤ n) × (n ≤ high)

abbrev pub Takes : ℕ → Matcher → Type 0
Takes low m = (s : Chars) → IsWithin low (length s) (m s)

pub plus-IsWithin :
    (n low high : ℕ) (r : Option ℕ) → IsWithin low high r → IsWithin (n + low) (n + high) (plus n r)
plus-IsWithin n low high none h = tt
plus-IsWithin n low high (some k) h = (omega (arith, h.0), omega (arith, h.1))

pub wider-IsWithin :
    (low low' high high' : ℕ) (r : Option ℕ)
    → low' ≤ low
    → high ≤ high'
    → IsWithin low high r
    → IsWithin low' high' r
wider-IsWithin low low' high high' none f g h = tt
wider-IsWithin low low' high high' (some n) f g h = (omega (arith, f, h.0), omega (arith, g, h.1))

pub or_try-IsWithin :
    (low high : ℕ) (a b : Option ℕ)
    → IsWithin low high a
    → IsWithin low high b
    → IsWithin low high (or_try a b)
or_try-IsWithin low high none b h k = k
or_try-IsWithin low high (some n) b h k = h

pub if-IsWithin :
    (low high : ℕ) (c : Bool) (a b : Option ℕ)
    → IsWithin low high a
    → IsWithin low high b
    → IsWithin low high (if c then a else b)
if-IsWithin low high true a b h k = h
if-IsWithin low high false a b h k = k

pub literal-Takes : (t : Chars) → Takes (length t) (literal t)
unfolding literal
literal-Takes [] s = (omega arith, omega arith)
literal-Takes (c ∷ t) [] = tt
literal-Takes (c ∷ t) (d ∷ s) =
    if-IsWithin _ _ (c == d) _ _
      (wider-IsWithin (1 + length t) (suc (length t)) (1 + length s) (suc (length s)) _
        (omega arith) (omega arith)
        (plus-IsWithin 1 (length t) (length s) (literal t s) (literal-Takes t s)))
      tt

run_length_le : (p : ℕ → Bool) (s : Chars) → run_length p s ≤ length s
unfolding run_length
run_length_le p [] = omega arith
run_length_le p (c ∷ s) = ground (arith, run_length_le p s)

positive-IsWithin : (n high : ℕ) → n ≤ high → IsWithin 1 high (positive n)
positive-IsWithin zero high h = tt
positive-IsWithin (suc n) high h = (omega arith, h)

pub any_of-Takes : (p : ℕ → Bool) → Takes 0 (any_of p)
unfolding any_of
any_of-Takes p s = (omega arith, run_length_le p s)

pub some_of-Takes : (p : ℕ → Bool) → Takes 1 (some_of p)
unfolding some_of
some_of-Takes p s = positive-IsWithin (run_length p s) (length s) (run_length_le p s)

pub length-drop : (n : ℕ) (s : Chars) → n ≤ length s → n + length (drop n s) ≡ length s
length-drop zero s h = omega arith
length-drop (suc n) [] h = omega (arith, h)
length-drop (suc n) (c ∷ s) h = omega (arith, length-drop n s (omega (arith, h)))

then_match-IsWithin :
    (low low' : ℕ) (s : Chars) (m : Matcher) (r : Option ℕ)
    → IsWithin low (length s) r
    → Takes low' m
    → IsWithin (low + low') (length s) (then_match r (λ n. m (drop n s)))
then_match-IsWithin low low' s m none h k = tt
then_match-IsWithin low low' s m (some n) h k =
    wider-IsWithin (n + low') (low + low') (n + length (drop n s)) (length s)
      (plus n (m (drop n s))) (omega (arith, h.0)) (omega (arith, length-drop n s h.1))
      (plus-IsWithin n low' (length (drop n s)) (m (drop n s)) (k (drop n s)))

pub sequence_nil-Takes : Takes 0 (sequence [])
unfolding sequence
sequence_nil-Takes s = (omega arith, omega arith)

pub sequence-Takes :
    (low low' : ℕ) (m : Matcher) (ms : List Matcher)
    → Takes low m
    → Takes low' (sequence ms)
    → Takes (low + low') (sequence (m ∷ ms))
unfolding sequence
sequence-Takes low low' m ms h k s = then_match-IsWithin low low' s (sequence ms) (m s) (h s) k

pub either_match-Takes :
    (low : ℕ) (m n : Matcher) → Takes low m → Takes low n → Takes low (either_match m n)
unfolding either_match
either_match-Takes low m n h k s = or_try-IsWithin low (length s) (m s) (n s) (h s) (k s)

pub spaced-Takes : (low : ℕ) (m : Matcher) → Takes low m → Takes low (spaced m)
unfolding spaced
spaced-Takes low m h [] = h []
spaced-Takes low m h (c ∷ s) =
    if-IsWithin low _ (is_space c) _ _
      (or_try-IsWithin low _ _ _
        (wider-IsWithin (1 + low) low (1 + length s) (suc (length s)) (plus 1 (spaced m s))
          (omega arith) (omega arith)
          (plus-IsWithin 1 low (length s) (spaced m s) (spaced-Takes low m h s)))
        (h (c ∷ s)))
      (h (c ∷ s))

or_try-eq-some {ℓ} :
    {A : Type ℓ} (i : ℕ) (a : Option A) (b : Option (ℕ × A)) (r : ℕ × A)
    → or_try (at i a) b ≡ some r
    → ((i ≡ r.0) × (a ≡ some r.1)) ⊎ (b ≡ some r)
or_try-eq-some i none b r h = inr h
or_try-eq-some i (some a) b r h = inl (cc, cc)

add_zero : (i : ℕ) → i + 0 ≡ i
add_zero i = omega arith

add_suc : (i k : ℕ) → i + suc k ≡ suc i + k
add_suc i k = omega arith

-- What `exec` says was matched where it says.
pub exec_found {ℓ} :
    {A : Type ℓ} (m : ℕ → Chars → Option A) (i : ℕ) (s : Chars) (r : ℕ × A)
    → exec m i s ≡ some r
    → (k : ℕ) × (r.0 ≡ i + k) × (k ≤ length s) × (m (i + k) (drop k s) ≡ some r.1)
unfolding exec
exec_found m i [] r h = elim (or_try-eq-some i (m i []) none r (cc)) [
  | inl e ↦ (0, omega (arith, e.0), omega arith, rw (add_zero i) e.1)
  | inr e ↦ cc
]
exec_found m i (c ∷ s) r h = elim (or_try-eq-some i (m i (c ∷ s)) (exec m (suc i) s) r h) [
  | inl e ↦ (0, omega (arith, e.0), omega arith, rw (add_zero i) e.1)
  | inr e ↦
      let (k, f, g, eq) = exec_found m (suc i) s r e in
      (suc k, omega (arith, f), omega (arith, g), rw (add_suc i k) eq)
]
