-- ===== src/Trigger/Complete.antt =====
-- What the calls of the form are made with.
use pikoci.Base.{
  ℕ, Bool, true, false, not, ◌&&◌, ◌||◌, Option, none, some, List, [], ◌∷◌, ◌≡◌, refl, arith, ◌⊎◌,
  inl, inr, All, All-append, or_empty, if◌then◌else◌, &&_left,
}
use pikoci.Text.{Chars}
use pikoci.Trigger.{
  Input, Values, value_of, is_blank, has_default, is_given, input_valid, inputs_valid, Call, Form,
  trigger_with, has_inputs, is_listed, on_trigger, on_input_submit, on_multi_select, Event,
  answered, pressed, typed, toggled, submitted, cancelled, settled, step, run, opened,
}

-- The input has a default, or a text that is not empty.
abbrev pub IsFilled : Values → Input → Type 0
IsFilled values i =
    ((d : Chars) × (i.initial ≡ some d))
    ⊎ ((c : ℕ) × (cs : Chars) × (value_of values i.name ≡ some (c ∷ cs)))

-- A call without values is for a job without inputs, one with values fills every input.
abbrev pub IsComplete : Call → Type 0
IsComplete c = elim c.values [ none ↦ c.inputs ≡ [] | some v ↦ All (IsFilled v) c.inputs ]

default_given :
    (o : Option Chars) (b : Bool)
    → (elim o [ none ↦ false | some _ ↦ true ] || b) ≡ true
    → ((d : Chars) × (o ≡ some d)) ⊎ (b ≡ true)
default_given none b h = inr h
default_given (some d) b h = inl (d, refl)

given : (o : Option Chars) → is_given o ≡ true → (c : ℕ) × (cs : Chars) × (o ≡ some (c ∷ cs))
unfolding is_given is_blank
given none h = cc
given (some []) h = cc
given (some (c ∷ cs)) h = (c, cs, refl)

input_valid-IsFilled :
    (values : Values) (i : Input) → input_valid values i ≡ true → IsFilled values i
unfolding input_valid has_default
input_valid-IsFilled values i h = elim (default_given i.initial _ h) [
  | inl d ↦ inl d
  | inr g ↦ inr (given (value_of values i.name) g)
]

inputs_valid-IsFilled :
    (inputs : List Input) (values : Values)
    → inputs_valid inputs values ≡ true
    → All (IsFilled values) inputs
unfolding inputs_valid
inputs_valid-IsFilled [] values h = tt
inputs_valid-IsFilled (i ∷ inputs) values h = (
  input_valid-IsFilled values i (&&_left _ _ h),
  inputs_valid-IsFilled inputs values (ground (arith, h)),
)

no_inputs : (inputs : List Input) → has_inputs inputs ≡ false → inputs ≡ []
unfolding has_inputs
no_inputs [] h = refl
no_inputs (i ∷ inputs) h = cc

IsFine : Form → Type 0
IsFine f = All IsComplete f.calls

either_form :
    (b : Bool) (f g : Form)
    → (b ≡ true → IsFine f)
    → (b ≡ false → IsFine g)
    → IsFine (if b then f else g)
either_form true f g h k = h refl
either_form false f g h k = k refl

trigger_with-IsFine :
    (values : Option Values) (f : Form)
    → IsComplete (record { inputs = or_empty f.inputs; values = values })
    → IsFine f
    → IsFine (trigger_with values f)
unfolding trigger_with IsFine
trigger_with-IsFine values f c h = All-append IsComplete f.calls _ h (c, tt)

step-IsFine : (e : Event) (f : Form) → IsFine f → IsFine (step e f)
unfolding step on_trigger on_input_submit on_multi_select IsFine
step-IsFine (answered inputs) f h = h
step-IsFine pressed f h =
    either_form f.loading f _ (λ e. h)
      (λ e.
        either_form (has_inputs (or_empty f.inputs)) _ _ (λ k. h)
          (λ k. trigger_with-IsFine none f (no_inputs (or_empty f.inputs) k) h))
step-IsFine (typed name v) f h = either_form f.shown _ f (λ e. h) (λ e. h)
step-IsFine (toggled name choice checked) f h = either_form f.shown _ f (λ e. h) (λ e. h)
step-IsFine submitted f h =
    either_form
      (f.shown
        && (is_listed f.inputs && (inputs_valid (or_empty f.inputs) f.values && not f.loading)))
      (on_input_submit f) f
      (λ e.
        trigger_with-IsFine (some f.values) (record f { shown = false })
          (inputs_valid-IsFilled (or_empty f.inputs) f.values (ground (arith, e))) h)
      (λ e. h)
step-IsFine cancelled f h = h
step-IsFine settled f h = h

run-IsFine : (events : List Event) (f : Form) → IsFine f → IsFine (run events f)
unfolding run
run-IsFine [] f h = h
run-IsFine (e ∷ events) f h = run-IsFine events (step e f) (step-IsFine e f h)

-- Whatever the user and the server do, a job is triggered without values only if it has no inputs
-- then, and with values only if every input that it has then has a default or a text that is not
-- empty.
pub calls-IsComplete : (events : List Event) → All IsComplete (run events opened).calls
unfolding IsFine
calls-IsComplete events = run-IsFine events opened tt
