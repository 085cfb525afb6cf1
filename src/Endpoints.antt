-- ===== src/Endpoints.antt =====
-- The endpoints (api.js): what each function of the page asks the server for.
pub mod Account
pub mod Team
pub mod Pipeline
pub mod Paths
pub mod Scope
pub mod Routing
mod Tests
use pikoci.Base.{
  String, Bool, true, false, Option, none, some, List, [], ◌∷◌, ◌++◌, map, if◌then◌else◌, ◌==◌,
  text_equality,
}
use pikoci.Text.{Chars, codes}

pub data Method : Type 0 where
  get : Method
  post : Method
  put : Method
  delete : Method

-- The text of the body, before `JSON.stringify` for the objects the function makes itself.
pub data Body : Type 0 where
  data_text : String → Body  -- `JSON.stringify(data)` of the caller's data
  message : String → Body  -- `{ message }`
  version_id : String → Body  -- `{ version_id: versionID }`
  input_values : List (String × String) → Body  -- `{ input_values: inputValues }`

-- What the function resolves with: the answer, or one field of it.
pub data Result : Type 0 where
  whole : Result
  data_field : Result
  token_field : Result

-- `path` has the parts between the slashes. `query` is what `URLSearchParams` is made of; with
-- `none` the address has no `?`.
pub record Request : Type 0 where
  pub method : Method
  pub path : List String
  pub query : Option (List (String × String))
  pub body : Option Body
  pub result : Result
  pub silent : Bool

-- `api(path)`
abbrev pub reads : List String → Request
reads p = record {
  method = get;
  path = p;
  query = none;
  body = none;
  result = whole;
  silent = false;
}

-- `api(path).then(r => r.data)`
abbrev pub reads_data : List String → Request
reads_data p = record (reads p) { result = data_field }

-- `api(path, { method, body })`
abbrev pub sends : Method → List String → Option Body → Request
sends m p b = record (reads p) { method = m; body = b }

-- A value of the parameters of `fetchBuilds`.
pub data Value : Type 0 where
  one : String → Value
  many : List String → Value

unfoldable pub append_params : List (String × Value) → List (String × String)
append_params [] = []
append_params ((k, one v) ∷ rest) = (k, v) ∷ append_params rest
append_params ((k, many vs) ∷ rest) = map (λ v. (k, v)) vs ++ append_params rest

-- The path as it is sent.
unfoldable pub render : List String → Chars
render [] = []
render (part ∷ parts) = b'/' ∷ codes part ++ render parts
