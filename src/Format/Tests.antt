-- ===== src/Format/Tests.antt =====
-- Runs of the texts that the page shows.
use pikoci.Base.{true, arith, ℕ, ◌+◌, ◌≡◌, refl, [], ◌∷◌, map, some, contains}
use pikoci.Text.{Chars, codes, same_chars, split, join, to_number, digits_from}
use pikoci.Format.{
  duration_to_string, pad, hours_of, minutes_of, seconds_of, process_line, process_logs, last_part,
  time_ago, version_ref, truthy_field, text_field, fields, text, other,
}
use pikoci.Format.Durations.{IsPrintable}
use pikoci.Format.Logs.{process_logs_lines}

-- One digit: enough for the numbers below.
abbrev digit : ℕ → Chars
digit n = (48 + n) ∷ []

clock : duration_to_string digit 3725000000000 ≡ codes "01:02:05"
unfolding duration_to_string pad hours_of minutes_of seconds_of
clock = refl

overwritten : process_logs (codes "10%\r50%\nok") ≡ codes "50%\nok"
unfolding process_logs process_line last_part split join contains
overwritten = refl

an_hour : time_ago digit (some 7300) ≡ codes "2h ago"
unfolding time_ago
an_hour = refl

printable : IsPrintable digit 3725000000000
unfolding hours_of minutes_of seconds_of to_number digits_from
printable = ((refl, ground arith), ((refl, ground arith), ((refl, ground arith), tt)))

process_logs_lines_example :
    split b'\n' (process_logs (codes "10%\r50%\nok"))
    ≡ map process_line (split b'\n' (codes "10%\r50%\nok"))
process_logs_lines_example = process_logs_lines (codes "10%\r50%\nok")

-- A digest that is empty is passed over; without any of the keys the first field is shown.
digest_passed :
    version_ref (fields ((codes "digest", text []) ∷ (codes "tag", text (codes "v1")) ∷ []))
    ≡ codes "v1"
unfolding version_ref truthy_field text_field same_chars
digest_passed = refl

first_shown : version_ref (fields ((codes "n", other true (codes "5")) ∷ [])) ≡ codes "n: 5"
unfolding version_ref truthy_field text_field same_chars
first_shown = refl
