-- ===== src/Api.antt =====
-- The request wrapper `api` (api.js), from the answer of the server to the outcome of the call, with what it does to the
-- page: the session, the notice, the toasts and the address.
pub mod Effects
pub mod Polls
mod Tests
use pikoci.Base.{
  ℕ, String, Bool, true, false, not, ◌&&◌, ◌||◌, Option, none, some, List, [], ◌∷◌, ◌++◌,
  if◌then◌else◌, ◌==◌, number_equality, text_equality,
}
use pikoci.Session.{Session, Store, is_truthy, logout}

-- A failed answer's body, if it is JSON: the field `error` of it.
pub record Response : Type 0 where
  pub status : ℕ
  pub ok : Bool
  pub refreshes : Bool  -- the header `X-Refresh-Token` is `true`
  pub status_text : String
  pub body_error : Option String

pub record Options : Type 0 where
  pub is_interval : Bool
  pub silent : Bool

pub record World : Type 0 where
  pub store : Store
  pub error : String  -- `apiNotice.value.error`
  pub success : String
  pub toasts : List (String × String)  -- shown so far, with their types
  pub location : Option String  -- the last path routed to
  pub refreshed : ℕ  -- how many requests for a new token were sent

pub data Outcome : Type 0 where
  done : Outcome  -- resolves with `res.json()`
  api_error : String → ℕ → Outcome  -- throws an `ApiError`: its message and status
  unreachable : Outcome  -- `fetch` itself rejects

-- `body?.error || response.statusText || 'Unknown error'`
unfoldable pub error_message : Response → String
error_message r = elim r.body_error [
  | none ↦ if r.status_text == "" then "Unknown error" else r.status_text
  | some e ↦ if e == "" then (if r.status_text == "" then "Unknown error" else r.status_text) else e
]

-- `headers['Authorization']`, set from the session when the request is made.
unfoldable pub authorization : Session → Option String
authorization s = elim s.jwt [
  | none ↦ none
  | some jwt ↦ if jwt == "" then none else some (Prim.Native.String.◌++◌ "Bearer " jwt)
]

unfoldable pub is_lost : ℕ → Bool
is_lost status = status == 0 || (status == 502 || (status == 503 || status == 504))

unfoldable pub shown_message : Response → String
shown_message r = if is_lost r.status then "Connection lost. Retrying..." else error_message r

unfoldable pub refresh_token : Response → World → World
refresh_token r w =
    if r.refreshes then record w { refreshed = Prim.Native.Nat.suc w.refreshed } else w

-- `logout(); route('/login')`
unfoldable pub force_login : World → World
force_login w = record w { store = logout w.store; location = some "/login" }

unfoldable pub report : Options → Response → World → World
report o r w =
    if o.silent
    then w
    else record w { error = shown_message r; toasts = w.toasts ++ (shown_message r, "error") ∷ [] }

-- The branch `!res.ok`.
unfoldable pub on_failure : Options → Response → World → World
on_failure o r w =
    if error_message r == "Authentication required" && is_truthy w.store.session.jwt
    then force_login w
    else if o.is_interval && not (w.error == "")
    then w
    else report o r w

unfoldable pub on_success : Options → World → World
on_success o w =
    if o.silent
    then w
    else if o.is_interval
    then (if w.error == "" then w else record w { error = "" })
    else record w { error = ""; success = "" }

unfoldable pub api : Options → Option Response → World → Outcome × World
api o none w = (unreachable, w)
api o (some r) w =
    if r.ok
    then (done, on_success o (refresh_token r w))
    else (api_error (error_message r) r.status, on_failure o r (refresh_token r w))

-- `apiInterval`
unfoldable pub api_interval : Options → Option Response → World → Outcome × World
api_interval o = api (record o { is_interval = true })
