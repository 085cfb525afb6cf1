-- ===== src/JsObject.antt =====
-- A JavaScript object that is used as a set of strings: `seen[k] = true`, then `if (seen[k])`.
-- An object literal inherits from `Object.prototype`, so a test of a name that the prototype has
-- passes although it was never set.
use pikoci.Base.{String, Bool, List, [], ◌∷◌, ◌||◌, text_equality, contains}

-- The names of `Object.prototype`; the value of each is truthy.
abbrev pub prototype_names : List String
prototype_names =
    "constructor" ∷ "toString" ∷ "valueOf" ∷ "hasOwnProperty" ∷ "isPrototypeOf"
    ∷ "propertyIsEnumerable" ∷ "toLocaleString" ∷ "__proto__" ∷ "__defineGetter__"
    ∷ "__defineSetter__" ∷ "__lookupGetter__" ∷ "__lookupSetter__" ∷ []

unfoldable pub is_inherited : String → Bool
unfolding contains
is_inherited k = contains prototype_names k

-- `seen[k]` as a condition, where `own` lists the names that were set to `true`.
unfoldable pub is_set : List String → String → Bool
is_set own k = is_inherited k || contains own k
