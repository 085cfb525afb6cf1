-- ===== src/Team/Admins.antt =====
-- A team keeps an administrator.
use mathlib.Core.Path.{subst}
use pikoci.Base.{
  ℕ, zero, suc, ◌+◌, ◌≤◌, Bool, true, false, not, ◌&&◌, Option, none, some, List, [], ◌∷◌, ◌++◌,
  String, map, if◌then◌else◌, ◌==◌, ==_iff, text_equality, contains, IsDistinct, ◌≡◌, refl, sym,
  arith, Bool-cases, inl, inr, any, &&_left,
}
use pikoci.Team.Members.{
  Member, Request, changing, removing, Tab, is_admin, admins, is_last_admin, change, without, apply,
  row_of, is_free, take_request, answer, is_removing, Event, chose_role, deleted, loaded, answered,
  step, run, opened, names_of,
}

-- Nobody stands twice in the list, and somebody is an administrator.
abbrev pub IsLed : List Member → Type 0
IsLed ms = IsDistinct (names_of ms) × (1 ≤ admins ms)

-- The user and the server wait for the answer to a request, and lists that are loaded are led.
abbrev pub IsInTurn : Event → Tab → Type 0
IsInTurn (answered k good) t = Unit
IsInTurn (loaded ms) t = (t.waiting ≡ []) × IsLed ms
IsInTurn _ t = t.waiting ≡ []

abbrev pub AreInTurn : List Event → Tab → Type 0
AreInTurn [] t = Unit
AreInTurn (e ∷ events) t = IsInTurn e t × AreInTurn events (step e t)

-- Whether a member that was found is an administrator, as a number.
abbrev pub one_if : Option Member → ℕ
one_if none = 0
one_if (some m) = if is_admin m then 1 else 0

missing-without :
    (u : String) (ms : List Member) → contains (names_of ms) u ≡ false → without u ms ≡ ms
unfolding without contains
missing-without u [] h = refl
missing-without u (m ∷ ms) h = ground (arith, missing-without u ms, h)

one_more : (m : Member) (ms : List Member) → admins (m ∷ ms) ≡ one_if (some m) + admins ms
unfolding admins
one_more m ms = elim (Bool-cases (is_admin m)) [
  | inl e ↦ rw e (omega arith)
  | inr e ↦ rw e (omega arith)
]

without-admins :
    (u : String) (ms : List Member)
    → IsDistinct (names_of ms)
    → admins ms ≡ one_if (row_of u ms) + admins (without u ms)
unfolding without row_of
without-admins u [] d = omega arith
without-admins u (m ∷ ms) d = elim (Bool-cases (m.username == u)) [
  | inl e ↦
      let same =
        missing-without u ms
          (subst (λ v. contains (names_of ms) v ≡ false) ((==_iff m.username u).0 e) d.0) in
      rw (e, same) (one_more m ms)
  | inr e ↦ rw e (omega (arith, one_more m ms, one_more m (without u ms), without-admins u ms d.1))
]

map-change-admins :
    (u role : String) (ms : List Member) → admins (without u ms) ≤ admins (map (change u role) ms)
unfolding without change
map-change-admins u role [] = omega arith
map-change-admins u role (m ∷ ms) = elim (Bool-cases (m.username == u)) [
  | inl e ↦ rw e (
      omega (
        arith,
        one_more (record m { role = role }) (map (change u role) ms),
        map-change-admins u role ms,
      ))
  | inr e ↦ rw e (
      omega (
        arith,
        one_more m (map (change u role) ms),
        one_more m (without u ms),
        map-change-admins u role ms,
      ))
]

without_missing :
    (u v : String) (ms : List Member)
    → contains (names_of ms) v ≡ false
    → contains (names_of (without u ms)) v ≡ false
unfolding without contains
without_missing u v [] h = refl
without_missing u v (m ∷ ms) h = ground (arith, without_missing u v ms, h)

names_of-change :
    (u role : String) (ms : List Member) → names_of (map (change u role) ms) ≡ names_of ms
unfolding change
names_of-change u role [] = refl
names_of-change u role (m ∷ ms) = elim (Bool-cases (m.username == u)) [
  | inl e ↦ rw (e, names_of-change u role ms) refl
  | inr e ↦ rw (e, names_of-change u role ms) refl
]

without-IsDistinct :
    (u : String) (ms : List Member)
    → IsDistinct (names_of ms)
    → IsDistinct (names_of (without u ms))
unfolding without
without-IsDistinct u [] d = tt
without-IsDistinct u (m ∷ ms) d = elim (Bool-cases (m.username == u)) [
  | inl e ↦ rw e (without-IsDistinct u ms d.1)
  | inr e ↦ rw e (without_missing u m.username ms d.0, without-IsDistinct u ms d.1)
]

-- A change that the controls allow leaves an administrator.
free_change :
    (t : Tab) (u : String) (o : Option Member)
    → is_free t o ≡ true
    → admins t.members ≡ one_if o + admins (without u t.members)
    → 1 ≤ admins t.members
    → 1 ≤ admins (without u t.members)
unfolding is_free is_last_admin
free_change t u none f e h = omega (arith, e, h)
free_change t u (some m) f e h = elim (Bool-cases (is_admin m)) [
  | inl a ↦ ground (arith, f, e, h, a)
  | inr a ↦ ground (arith, f, e, h, a)
]

-- Nothing waits, or one request does that leaves the list led.
IsCalm : List Request → List Member → Type 0
IsCalm [] ms = Unit
IsCalm (r ∷ []) ms = IsLed (apply r ms)
IsCalm (r ∷ q ∷ rs) ms = ⊥

IsSafe : Tab → Type 0
IsSafe t = IsLed t.members × IsCalm t.waiting t.members

either_tab :
    (b : Bool) (s t : Tab)
    → (b ≡ true → IsSafe s)
    → (b ≡ false → IsSafe t)
    → IsSafe (if b then s else t)
either_tab true s t h k = h refl
either_tab false s t h k = k refl

free_led :
    (t : Tab) (u : String)
    → IsLed t.members
    → is_free t (row_of u t.members) ≡ true
    → 1 ≤ admins (without u t.members)
free_led t u l f = free_change t u (row_of u t.members) f (without-admins u t.members l.0) l.1

request-IsSafe :
    (t : Tab) (r : Request)
    → t.waiting ≡ []
    → IsLed t.members
    → IsLed (apply r t.members)
    → IsSafe (record t { waiting = t.waiting ++ r ∷ [] })
unfolding IsSafe IsCalm
request-IsSafe t r w l k = (l, subst (λ rs. IsCalm (rs ++ r ∷ []) t.members) (sym w) k)

changing-IsLed :
    (t : Tab) (u role : String)
    → IsLed t.members
    → is_free t (row_of u t.members) ≡ true
    → IsLed (apply (changing t.members u role) t.members)
unfolding apply
changing-IsLed t u role l f = (
  subst IsDistinct (sym (names_of-change u role t.members)) l.0,
  omega (arith, map-change-admins u role t.members, free_led t u l f),
)

removing-IsLed :
    (t : Tab) (u : String)
    → IsLed t.members
    → is_free t (row_of u t.members) ≡ true
    → IsLed (apply (removing u) t.members)
unfolding apply
removing-IsLed t u l f = (without-IsDistinct u t.members l.0, free_led t u l f)

answer-IsSafe :
    (t : Tab) (rs : List Request) (k : ℕ) (good : Bool)
    → t.waiting ≡ rs
    → IsLed t.members
    → IsCalm rs t.members
    → IsSafe (answer good (take_request k rs) t)
unfolding answer take_request IsSafe IsCalm
answer-IsSafe t [] k good w l c = (l, subst (λ rs. IsCalm rs t.members) (sym w) tt)
answer-IsSafe t (r ∷ []) zero true w l c = (c, tt)
answer-IsSafe t (r ∷ []) zero false w l c = (l, tt)
answer-IsSafe t (r ∷ []) (suc k) good w l c = (l, subst (λ rs. IsCalm rs t.members) (sym w) c)
answer-IsSafe t (r ∷ q ∷ rs) k good w l c = absurd c

step-IsSafe : (e : Event) (t : Tab) → IsInTurn e t → IsSafe t → IsSafe (step e t)
unfolding step IsSafe IsCalm
step-IsSafe (chose_role u role) t w s =
    either_tab (is_free t (row_of u t.members)) _ t
      (λ f. request-IsSafe t (changing t.members u role) w s.0 (changing-IsLed t u role s.0 f))
      (λ f. s)
step-IsSafe (deleted u) t w s =
    either_tab (is_free t (row_of u t.members) && not (any (is_removing u) t.waiting)) _ t
      (λ f. request-IsSafe t (removing u) w s.0 (removing-IsLed t u s.0 (&&_left _ _ f))) (λ f. s)
step-IsSafe (loaded ms) t (w, l) s = (l, subst (λ rs. IsCalm rs ms) (sym w) tt)
step-IsSafe (answered k good) t w s = answer-IsSafe t t.waiting k good refl s.0 s.1

run-IsSafe : (events : List Event) (t : Tab) → AreInTurn events t → IsSafe t → IsSafe (run events t)
unfolding run
run-IsSafe [] t h s = s
run-IsSafe (e ∷ events) t h s = run-IsSafe events (step e t) h.1 (step-IsSafe e t h.0 s)

-- If the members of a team stand once each and one is an administrator, then this stays so
-- whatever roles are chosen and whoever is deleted and whatever the server answers, as long as
-- nothing is asked for while a request waits, and lists that are loaded are such lists.
pub run-IsLed :
    (can_manage : Bool) (ms : List Member) (events : List Event)
    → IsLed ms
    → AreInTurn events (opened can_manage ms)
    → IsLed (run events (opened can_manage ms)).members
unfolding IsSafe IsCalm
run-IsLed can_manage ms events l h = (run-IsSafe events (opened can_manage ms) h (l, tt)).0
