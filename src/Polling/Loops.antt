-- ===== src/Polling/Loops.antt =====
-- How many polling loops there are.
use pikoci.Base.{
  ℕ, zero, suc, ◌+◌, ◌<◌, ◌≤◌, Bool, true, false, none, some, List, [], ◌∷◌, ◌≡◌, refl, arith,
  length, contains, All, number_equality, Option-cases, inl, inr,
}
use pikoci.Polling.{Poll, disarm, Event, fire, settle, hide, show, unmount, step, run, mount, loops}

-- The events of a tab whose visibility does not change.
abbrev pub IsSteady : Event → Type 0
IsSteady (fire id) = Unit
IsSteady settle = Unit
IsSteady _ = ⊥

length-disarm : (id : ℕ) (timers : List ℕ) → length (disarm id timers) ≤ length timers
unfolding disarm
length-disarm id [] = omega arith
length-disarm id (t ∷ timers) = ground (arith, length-disarm id timers)

length-disarm_lt :
    (id : ℕ) (timers : List ℕ)
    → contains timers id ≡ true
    → length (disarm id timers) < length timers
unfolding disarm contains
length-disarm_lt id [] h = cc
length-disarm_lt id (t ∷ timers) h =
    ground (arith, length-disarm id timers, length-disarm_lt id timers)

disarm_missing : (id : ℕ) (timers : List ℕ) → contains timers id ≡ false → disarm id timers ≡ timers
unfolding disarm contains
disarm_missing id [] h = refl
disarm_missing id (t ∷ timers) h = ground (arith, disarm_missing id timers)

IsSingle : Poll → Type 0
IsSingle p = (p.stopped ≡ false) × (loops p ≡ 1)

step-IsSingle : (p : Poll) (e : Event) → IsSteady e → IsSingle p → IsSingle (step p e)
unfolding step IsSingle
step-IsSingle p (fire id) s v = ground (arith, length-disarm_lt id p.armed)
step-IsSingle p settle s v = ground arith
step-IsSingle p hide s v = absurd s
step-IsSingle p show s v = absurd s
step-IsSingle p unmount s v = absurd s

run-IsSingle :
    (p : Poll) (events : List Event) → All IsSteady events → IsSingle p → IsSingle (run p events)
unfolding run
run-IsSingle p [] s v = v
run-IsSingle p (e ∷ events) s v = run-IsSingle (step p e) events s.1 (step-IsSingle p e s.0 v)

-- While the visibility of the tab does not change and the component stays mounted, a poll that was
-- mounted in a visible tab has exactly one loop.
pub steady_loops :
    (events : List Event) → All IsSteady events → loops (run (mount false) events) ≡ 1
unfolding mount IsSingle
steady_loops events s = (run-IsSingle (mount false) events s (refl, omega arith)).1

-- `timeoutId` names a timer that has not fired.
abbrev pub is_pending : Poll → Bool
is_pending p = elim p.timeout_id [ none ↦ false | some id ↦ contains p.armed id ]

pub record IsVisible (p : Poll) : Type 0 where
  pub mounted : p.stopped ≡ false
  pub listens : p.listening ≡ true
  pub shown : p.hidden ≡ false

-- What `stop` leaves of the timers.
abbrev left : Poll → List ℕ
left p = elim p.timeout_id [ none ↦ p.armed | some id ↦ disarm id p.armed ]

left_loose : (p : Poll) → is_pending p ≡ false → left p ≡ p.armed
left_loose p h = elim (Option-cases p.timeout_id) [
  | inl e ↦ rw e refl
  | inr (id, e) ↦ rw e (disarm_missing id p.armed (rw e at h))
]

left_pending : (p : Poll) → is_pending p ≡ true → length (left p) < length p.armed
left_pending p h = elim (Option-cases p.timeout_id) [
  | inl e ↦ cc (rw e at h)
  | inr (id, e) ↦ rw e (length-disarm_lt id p.armed (rw e at h))
]

hide_lem :
    (p : Poll)
    → IsVisible p
    → step p hide ≡ record p { hidden = true; timeout_id = none; armed = left p }
unfolding step
hide_lem p v = ground (arith, v)

flip_lem :
    (p : Poll)
    → IsVisible p
    → step (step p hide) show ≡ record p {
      hidden = false;
      timeout_id = none;
      armed = left p;
      running = suc p.running;
      calls = suc p.calls;
    }
unfolding step
flip_lem p v = rw (hide_lem p v) (ground (arith, v))

-- If the one loop of a poll that is mounted and visible waits for a timer, then it has none while
-- the tab is hidden, and one again, with a call of `fn` at once, when the tab is shown.
pending_pauses :
    (p : Poll)
    → IsVisible p
    → loops p ≡ 1
    → is_pending p ≡ true
    → (loops (step p hide) ≡ 0)
      × (loops (run p (hide ∷ show ∷ [])) ≡ 1)
      × ((run p (hide ∷ show ∷ [])).calls ≡ suc p.calls)
unfolding run
pending_pauses p v one h = ground (arith, hide_lem p v, flip_lem p v, left_pending p h)

-- The tab is hidden and shown again, `n` times.
abbrev pub flips : ℕ → List Event
flips zero = []
flips (suc n) = hide ∷ show ∷ flips n

record IsLoose (p : Poll) : Type 0 where
  visible : IsVisible p
  loose : is_pending p ≡ false

flip-IsLoose :
    (p : Poll)
    → IsLoose p
    → IsLoose (step (step p hide) show) × (loops (step (step p hide) show) ≡ suc (loops p))
flip-IsLoose p v = ground (arith, v.visible, flip_lem p v.visible, left_loose p v.loose)

-- If the poll is mounted and visible and no timer is pending, as while a call of `fn` is in
-- flight, then each time the tab is hidden and shown again there is one loop more.
flips_add_loops :
    (n : ℕ) (p : Poll) → IsVisible p → is_pending p ≡ false → loops (run p (flips n)) ≡ loops p + n
unfolding run
flips_add_loops n p v h = add n p (record { visible = v; loose = h })
  where
    add : (n : ℕ) (p : Poll) → IsLoose p → loops (run p (flips n)) ≡ loops p + n
    add zero p l = omega arith
    add (suc n) p l =
        let (l', e) = flip-IsLoose p l in omega (arith, add n (step (step p hide) show) l', e)

-- If a poll is mounted and visible with a call of `fn` in flight, and the tab is hidden and then
-- that call settles, a timer is set although the tab is hidden.
hidden_rearms :
    (p : Poll)
    → IsVisible p
    → 0 < p.running
    → let q = run p (hide ∷ settle ∷ []) in (q.hidden ≡ true) × (contains q.armed p.next_id ≡ true)
unfolding run step contains
hidden_rearms p v h = ground (arith, v)
