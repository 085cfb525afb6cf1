-- ===== src/Trigger/Tests.antt =====
-- Runs of the form.
use pikoci.Base.{
  ◌≡◌, true, false, refl, All, none, some, List, [], ◌∷◌, contains, text_equality, number_equality,
}
use pikoci.Text.{codes, split, join, same_chars, chars_equality}
use pikoci.Trigger.{
  Input, first_value, first_values, set_value, value_of, is_blank, choices, toggle_choice,
  is_checked, has_default, is_given, is_listed, input_valid, inputs_valid, trigger_with, has_inputs,
  on_trigger, on_input_submit, on_multi_select, or_blank, answered, pressed, toggled, submitted,
  step, run, opened,
}
use pikoci.Trigger.Complete.{IsComplete, calls-IsComplete}

abbrev inputs : List Input
inputs =
    record { name = "env"; kind = "string"; initial = none }
    ∷ record { name = "dry"; kind = "bool"; initial = none }
    ∷ []

-- Nothing is sent before the form has a text for `env`.
sent :
    (run
      (answered (some inputs)
        ∷ pressed
        ∷ submitted
        ∷ toggled "env" (codes "eu") true
        ∷ submitted
        ∷ [])
      opened).calls
    ≡ (record {
      inputs = inputs;
      values = some (("env", codes "eu") ∷ ("dry", codes "false") ∷ []);
    })
      ∷ []
unfolding run step on_trigger first_values first_value set_value value_of has_inputs inputs_valid
    input_valid has_default is_given is_blank is_listed on_multi_select toggle_choice choices
    or_blank on_input_submit trigger_with split join
sent = refl

-- The box of an option with a comma stays empty.
comma_box : is_checked (codes "eu,us") (toggle_choice (codes "eu,us") true []) ≡ false
unfolding is_checked toggle_choice choices split join contains is_blank same_chars
comma_box = refl

calls-IsComplete_example :
    All IsComplete
      (run
        (answered (some inputs)
          ∷ pressed
          ∷ submitted
          ∷ toggled "env" (codes "eu") true
          ∷ submitted
          ∷ [])
        opened).calls
calls-IsComplete_example = calls-IsComplete (
    answered (some inputs) ∷ pressed ∷ submitted ∷ toggled "env" (codes "eu") true ∷ submitted ∷ [])
