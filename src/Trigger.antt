-- ===== src/Trigger.antt =====
-- The form that asks for a job's inputs before the job is triggered (JobBuilds in components/Jobs.js).
-- What the user does, and the answers of the server, are events.
pub mod Choices
pub mod Complete
mod Tests
use pikoci.Base.{
  ℕ, zero, suc, ◌+◌, ◌-◌, Bool, true, false, not, ◌&&◌, ◌||◌, Option, none, some, List, [], ◌∷◌,
  ◌++◌, String, filter, all, or_empty, if◌then◌else◌, ◌==◌, text_equality, number_equality,
  contains, leb,
}
use pikoci.Text.{Chars, split, join, same_chars, chars_equality}

-- An input of a job; `initial` is `default`, and `none` is undefined or null.
pub record Input : Type 0 where
  pub name : String
  pub kind : String
  pub initial : Option Chars

-- `inputFormValues`
abbrev pub Values : Type 0
Values = List (String × Chars)

unfoldable pub value_of : Values → String → Option Chars
value_of [] name = none
value_of ((n, v) ∷ values) name = if n == name then some v else value_of values name

unfoldable pub set_value : String → Chars → Values → Values
set_value name v [] = (name, v) ∷ []
set_value name v ((n, w) ∷ values) =
    if n == name then (n, v) ∷ values else (n, w) ∷ set_value name v values

-- Of a text, whether it is empty.
unfoldable pub is_blank : Chars → Bool
is_blank [] = true
is_blank (_ ∷ _) = false

unfoldable pub first_value : Input → Chars
first_value i = elim i.initial [
  | some v ↦ v
  | none ↦
      if i.kind == "bool"
      then b'f' ∷ b'a' ∷ b'l' ∷ b's' ∷ b'e' ∷ []
      else if i.kind == "number"
      then b'0' ∷ []
      else []
]

-- The loop over `job.inputs`.
unfoldable pub first_values : List Input → Values → Values
first_values [] values = values
first_values (i ∷ inputs) values = first_values inputs (set_value i.name (first_value i) values)

unfoldable pub or_blank : Option Chars → Chars
or_blank none = []
or_blank (some v) = v

-- `split(',').filter(Boolean)`
unfoldable pub choices : Chars → List Chars
choices v = filter (λ c. not (is_blank c)) (split b',' v)

-- The value after a box of an input with several options was changed.
unfoldable pub toggle_choice : Chars → Bool → Chars → Chars
toggle_choice choice checked v =
    join b','
      (if checked then choices v ++ choice ∷ [] else filter (λ c. not (c == choice)) (choices v))

-- Whether the box is checked.
unfoldable pub is_checked : Chars → Chars → Bool
is_checked choice v = contains (split b',' v) choice

unfoldable pub has_default : Input → Bool
has_default i = elim i.initial [ none ↦ false | some _ ↦ true ]

-- `val !== undefined && val !== ''`
unfoldable pub is_given : Option Chars → Bool
is_given none = false
is_given (some v) = not (is_blank v)

unfoldable pub input_valid : Values → Input → Bool
input_valid values i = has_default i || is_given (value_of values i.name)

-- `inputsValid`; a job that is not loaded has no inputs.
unfoldable pub inputs_valid : List Input → Values → Bool
inputs_valid inputs values = all (input_valid values) inputs

-- A call of `triggerJob`: the inputs of the job then, and the values.
pub record Call : Type 0 where
  pub inputs : List Input
  pub values : Option Values

pub record Form : Type 0 where
  pub inputs : Option (List Input)  -- `job.inputs`; `none` also while no job is loaded
  pub shown : Bool  -- `showInputModal`
  pub values : Values
  pub loading : Bool  -- `triggerLoading`
  pub calls : List Call

-- `doTriggerWithInputs`, up to its `await`
unfoldable pub trigger_with : Option Values → Form → Form
trigger_with values f = record f {
  loading = true;
  calls = f.calls ++ (record { inputs = or_empty f.inputs; values = values }) ∷ [];
}

unfoldable pub has_inputs : List Input → Bool
has_inputs [] = false
has_inputs (_ ∷ _) = true

unfoldable pub is_listed : Option (List Input) → Bool
is_listed none = false
is_listed (some _) = true

-- `onTrigger`
unfoldable pub on_trigger : Form → Form
on_trigger f =
    if has_inputs (or_empty f.inputs)
    then record f { values = first_values (or_empty f.inputs) []; shown = true }
    else trigger_with none f

-- `onInputSubmit`
unfoldable pub on_input_submit : Form → Form
on_input_submit f = trigger_with (some f.values) (record f { shown = false })

unfoldable pub on_multi_select : String → Chars → Bool → Form → Form
on_multi_select name choice checked f = record f {
  values =
      set_value name (toggle_choice choice checked (or_blank (value_of f.values name))) f.values;
}

pub data Event : Type 0 where
  answered : Option (List Input) → Event  -- `setJob`
  pressed : Event  -- the button of the page
  typed : String → Chars → Event
  toggled : String → Chars → Bool → Event
  submitted : Event
  cancelled : Event
  settled : Event  -- the call of `triggerJob`

-- The buttons are disabled while a call runs, and that of the form when a value is missing.
unfoldable pub step : Event → Form → Form
step (answered inputs) f = record f { inputs = inputs }
step pressed f = if f.loading then f else on_trigger f
step (typed name v) f = if f.shown then record f { values = set_value name v f.values } else f
step (toggled name choice checked) f = if f.shown then on_multi_select name choice checked f else f
step submitted f =
    if f.shown
      && (is_listed f.inputs && (inputs_valid (or_empty f.inputs) f.values && not f.loading))
    then on_input_submit f
    else f
step cancelled f = record f { shown = false }
step settled f = record f { loading = false }

unfoldable pub run : List Event → Form → Form
run [] f = f
run (e ∷ events) f = run events (step e f)

abbrev pub opened : Form
opened = record { inputs = none; shown = false; values = []; loading = false; calls = [] }
