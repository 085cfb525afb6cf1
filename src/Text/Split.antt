-- ===== src/Text/Split.antt =====
-- `split` and `join` undo each other.
use pikoci.Base.{
  ℕ, ◌≡◌, ◌≢◌, refl, ap, ◌∙◌, inl, inr, List, [], ◌∷◌, ◌++◌, All, ◌==◌, ==_iff, ==_refl,
  number_equality, Bool-cases, arith,
}
use pikoci.Text.{Chars, push_front, split, join}

-- The character is not in the text.
abbrev pub HasNo : ℕ → Chars → Type 0
HasNo sep = All (λ c. c ≢ sep)

abbrev pub push_all : Chars → List Chars → List Chars
push_all [] parts = parts
push_all (c ∷ cs) parts = push_front c (push_all cs parts)

pub push_all-nil : (cs : Chars) (parts : List Chars) → push_all cs ([] ∷ parts) ≡ cs ∷ parts
push_all-nil [] parts = refl
push_all-nil (c ∷ cs) parts = ap (push_front c) (push_all-nil cs parts)

pub split-append :
    (sep : ℕ) (cs rest : Chars)
    → HasNo sep cs
    → split sep (cs ++ rest) ≡ push_all cs (split sep rest)
unfolding split
split-append sep [] rest h = refl
split-append sep (c ∷ cs) rest (n, h) = elim (Bool-cases (c == sep)) [
  | inl e ↦ absurd (n ((==_iff c sep).0 e))
  | inr e ↦ rw (e, split-append sep cs rest h) refl
]

-- A part, the separator, and the parts behind it.
pub split-part :
    (sep : ℕ) (cs rest : Chars) → HasNo sep cs → split sep (cs ++ sep ∷ rest) ≡ cs ∷ split sep rest
unfolding split
split-part sep cs rest h =
    split-append sep cs (sep ∷ rest) h
    ∙ (ap (push_all cs) (rw (==_refl sep) refl) ∙ push_all-nil cs (split sep rest))

pub split-last : (sep : ℕ) (cs : Chars) → HasNo sep cs → split sep cs ≡ cs ∷ []
unfolding split
split-last sep [] h = refl
split-last sep (c ∷ cs) (n, h) = elim (Bool-cases (c == sep)) [
  | inl e ↦ absurd (n ((==_iff c sep).0 e))
  | inr e ↦ rw (e, split-last sep cs h) refl
]

pub split-join :
    (sep : ℕ) (part : Chars) (parts : List Chars)
    → HasNo sep part
    → All (HasNo sep) parts
    → split sep (join sep (part ∷ parts)) ≡ part ∷ parts
unfolding join
split-join sep part [] h k = split-last sep part h
split-join sep part (next ∷ rest) h (m, k) =
    split-part sep part (join sep (next ∷ rest)) h
    ∙ ap (λ q. part ∷ q) (split-join sep next rest m k)

-- A property of every character that `split` keeps to each part.
module _ (P : ℕ → Type 0) where
  push_front-All :
      (c : ℕ) (parts : List Chars) → P c → All (All P) parts → All (All P) (push_front c parts)
  push_front-All c [] p h = ((p, tt), tt)
  push_front-All c (part ∷ parts) p (h, k) = ((p, h), k)

  pub split-All : (sep : ℕ) (cs : Chars) → All P cs → All (All P) (split sep cs)
  unfolding split
  split-All sep [] h = (tt, tt)
  split-All sep (c ∷ cs) (p, h) = elim (Bool-cases (c == sep)) [
    | inl e ↦ rw e (tt, split-All sep cs h)
    | inr e ↦ rw e (push_front-All c (split sep cs) p (split-All sep cs h))
  ]

pub split-HasNo : (sep : ℕ) (cs : Chars) → All (HasNo sep) (split sep cs)
unfolding split
split-HasNo sep [] = (tt, tt)
split-HasNo sep (c ∷ cs) = elim (Bool-cases (c == sep)) [
  | inl e ↦ rw e (tt, split-HasNo sep cs)
  | inr e ↦ rw e (
      push_front-All (λ d. d ≢ sep) c (split sep cs) (λ k. ground (arith, e, (==_iff c sep).1 k))
        (split-HasNo sep cs))
]
