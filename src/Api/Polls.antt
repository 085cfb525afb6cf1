-- ===== src/Api/Polls.antt =====
-- A server that keeps failing while a page polls it.
use pikoci.Base.{true, false, some, List, [], ◌∷◌, text_equality, ◌≡◌, ◌≢◌}
use pikoci.Api.{Response, World, error_message, api_interval}

-- Polls one after the other.
unfoldable pub polls : List Response → World → World
polls [] w = w
polls (r ∷ rs) w =
    polls rs (api_interval (record { is_interval = true; silent = false }) (some r) w).1

-- A failure that does not end the session.
abbrev pub IsFailure : Response → Type 0
IsFailure r = (r.ok ≡ false) × (error_message r ≢ "Authentication required")

abbrev poll : Response → World → World
poll r w = (api_interval (record { is_interval = true; silent = false }) (some r) w).1
