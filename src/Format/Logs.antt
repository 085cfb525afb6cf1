-- ===== src/Format/Logs.antt =====
-- The lines of a log stay apart when it is prepared (utils.js).
use pikoci.Base.{
  length, ◌≤◌, ℕ, ◌≡◌, ◌≢◌, refl, inl, inr, List, [], ◌∷◌, map, All, contains, ◌==◌,
  number_equality, Bool-cases, arith,
}
use pikoci.Text.{Chars, push_front, split, join}
use pikoci.Text.Split.{HasNo, split-join, split-All, split-HasNo}
use pikoci.Format.{last_part, process_line, process_logs}

last_part-All : (P : ℕ → Type 0) (parts : List Chars) → All (All P) parts → All P (last_part parts)
unfolding last_part
last_part-All P [] h = tt
last_part-All P (part ∷ []) h = h.0
last_part-All P (part ∷ next ∷ rest) h = last_part-All P (next ∷ rest) h.1

process_line-HasNo : (sep : ℕ) (line : Chars) → HasNo sep line → HasNo sep (process_line line)
unfolding process_line
process_line-HasNo sep line h = elim (Bool-cases (contains line b'\r')) [
  | inl e ↦
      rw e (last_part-All (λ c. c ≢ sep) (split b'\r' line) (split-All (λ c. c ≢ sep) b'\r' line h))
  | inr e ↦ rw e h
]

process_lines-HasNo :
    (sep : ℕ) (lines : List Chars)
    → All (HasNo sep) lines
    → All (HasNo sep) (map process_line lines)
process_lines-HasNo sep [] h = tt
process_lines-HasNo sep (line ∷ lines) (h, k) =
    (process_line-HasNo sep line h, process_lines-HasNo sep lines k)

-- A text has a first line.
length-push_front : (c : ℕ) (parts : List Chars) → 1 ≤ length (push_front c parts)
length-push_front c [] = omega arith
length-push_front c (part ∷ parts) = omega arith

length-split : (sep : ℕ) (cs : Chars) → 1 ≤ length (split sep cs)
unfolding split
length-split sep [] = omega arith
length-split sep (c ∷ cs) = elim (Bool-cases (c == sep)) [
  | inl e ↦ rw e (omega arith)
  | inr e ↦ rw e (length-push_front c (split sep cs))
]

split-process_lines :
    (lines : List Chars)
    → 1 ≤ length lines
    → All (HasNo b'\n') lines
    → split b'\n' (join b'\n' (map process_line lines)) ≡ map process_line lines
split-process_lines [] n h = absurd (omega (arith, n))
split-process_lines (line ∷ lines) n (h, k) =
    split-join b'\n' (process_line line) (map process_line lines) (process_line-HasNo b'\n' line h)
      (process_lines-HasNo b'\n' lines k)

-- The lines of a prepared log are the lines of the log, each prepared alone: none is lost, joined
-- or split.
pub process_logs_lines :
    (text : Chars) → split b'\n' (process_logs text) ≡ map process_line (split b'\n' text)
unfolding process_logs split process_line contains
process_logs_lines [] = refl
process_logs_lines (c ∷ cs) =
    split-process_lines (split b'\n' (c ∷ cs)) (length-split b'\n' (c ∷ cs))
      (split-HasNo b'\n' (c ∷ cs))
