-- ===== src/Api/Effects.antt =====
-- What one call of `api` does to the page.
use pikoci.Base.{
  String, true, false, ◌&&◌, Option, none, some, if◌then◌else◌, ◌==◌, number_equality,
  text_equality, ◌≡◌, ◌≢◌, ◌⊎◌, inl, inr, refl, arith, Bool-cases, Option-cases,
}
use text.Mathlib.TextEquality.{eq_iff}
use pikoci.Session.{is_truthy, logout}
use pikoci.Api.{
  Response, Options, World, done, error_message, shown_message, refresh_token, force_login, report,
  on_failure, on_success, api,
}

unknown_error : ◌≢◌ {A = String} "Unknown error" ""
unknown_error = ground (arith, eq_iff "Unknown error" "")

connection_lost : ◌≢◌ {A = String} "Connection lost. Retrying..." ""
connection_lost = ground (arith, eq_iff "Connection lost. Retrying..." "")

-- The message of an error is never empty.
pub error_message-ne : (r : Response) → error_message r ≢ ""
unfolding error_message
error_message-ne r h = elim (Option-cases r.body_error) [
  | inl e ↦ ground (arith, eq_iff r.status_text "", unknown_error)
  | inr (s, e) ↦ ground (arith, eq_iff r.status_text "", eq_iff s "", unknown_error)
]

pub shown_message-ne : (r : Response) → shown_message r ≢ ""
unfolding shown_message
shown_message-ne r = ground (arith, error_message-ne r, connection_lost)

-- The notice and the toasts are those of before.
abbrev pub IsQuiet : World → World → Type 0
IsQuiet w v = (v.error ≡ w.error) × (v.success ≡ w.success) × (v.toasts ≡ w.toasts)

-- A silent call never touches the notice or the toasts, whatever the answer.
api_silent :
    (o : Options) (r : Option Response) (w : World) → o.silent ≡ true → IsQuiet w (api o r w).1
unfolding api on_success on_failure report force_login refresh_token
api_silent o none w h = (refl, refl, refl)
api_silent o (some r) w h = ground arith

-- The answer says that the session is not valid any more, and there is one.
abbrev pub IsExpired : Response → World → Type 0
IsExpired r w =
    (r.ok ≡ false)
    × (error_message r ≡ "Authentication required")
    × (is_truthy w.store.session.jwt ≡ true)

-- A call that is answered ends the session exactly if the answer says that it expired; then the
-- page goes to the login, and the notice and the toasts are left as they were. In every other case
-- session and address are left.
pub api_session :
    (o : Options) (r : Response) (w : World)
    → (IsExpired r w
        × ((api o (some r) w).1.store ≡ logout w.store)
        × ((api o (some r) w).1.location ≡ some "/login")
        × IsQuiet w (api o (some r) w).1)
      ⊎ ((¬ IsExpired r w)
          × ((api o (some r) w).1.store ≡ w.store)
          × ((api o (some r) w).1.location ≡ w.location))
unfolding api on_success on_failure report force_login refresh_token
api_session o r w = elim (Bool-cases r.ok) [
  | inl k ↦ inr ((λ e. cc (e.0, k)), ground arith, ground arith)
  | inr k ↦
      elim (Bool-cases
        (error_message r == "Authentication required" && is_truthy w.store.session.jwt)) [
          | inl e ↦ inl (
            (k, ground (arith, eq_iff (error_message r) "Authentication required"), ground arith),
            ground arith,
            ground arith,
            ground arith,
          )
          | inr e ↦ inr (
            (λ x. ground (arith, eq_iff (error_message r) "Authentication required", x)),
            ground arith,
            ground arith,
          )
        ]
]

-- A successful call that is not silent takes the error away and shows no toast; a poll keeps the
-- message of a success and any other call clears it.
api_success :
    (o : Options) (r : Response) (w : World)
    → r.ok ≡ true
    → o.silent ≡ false
    → ((api o (some r) w).0 ≡ done)
      × ((api o (some r) w).1.error ≡ "")
      × ((api o (some r) w).1.toasts ≡ w.toasts)
      × ((api o (some r) w).1.success ≡ (if o.is_interval then w.success else ""))
unfolding api on_success refresh_token
api_success o r w k h = ground (arith, eq_iff w.error "")
