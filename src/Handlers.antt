-- ===== src/Handlers.antt =====
-- workflows/handlers.py: the handlers of the skill, execute and open_pr steps. A handler answers
-- one side effect, whose number the code outside of the program may depend on.
pub mod SkillStep
pub mod ExecuteStep
pub mod OpenPrStep
pub mod Building
pub mod Retrying
pub mod Failing
use flow_speckit.Prelude.{
  String, Option, none, some, List, [], ◌∷◌, if◌then◌else◌, Text, codes, text_eq,
}
use flow_speckit.Json.{Json, null, object, text, Fields, end, field}
use flow_speckit.Errors.{Exception, Called, gave, refused, killed}
use flow_speckit.Context.{StepResult, HandlerReply, returned, threw, died}

-- What the handlers call of Python: `str` and `repr` of a value, `str` of an exception, and
-- `str.strip`.
pub record Library : Type 0 where
  pub show : Json → Text
  pub repr : Json → Text
  pub message : Exception → Text
  pub strip : Text → Text

abbrev pub fields_of : List (Text × Json) → Fields
fields_of [] = end
fields_of ((name, value) ∷ entries) = field name value (fields_of entries)

-- A `StepResult` of a dict, which none of the handlers gives a cost.
abbrev pub result_of : List (Text × Json) → HandlerReply
result_of entries = returned (record { result = object (fields_of entries); cost = none })

abbrev pub status_entry : String → Text × Json
status_entry status = (codes "status", text (codes status))

unfoldable pub get_field : Text → Fields → Option Json
get_field name end = none
get_field name (field k value rest) =
    let found = get_field name rest in if text_eq k name then some value else found

-- `payload.get(name)`, of a payload that is a dict.
abbrev pub payload_get : Text → Json → Option Json
payload_get name (object fields) = get_field name fields
payload_get name _ = none

abbrev pub or_default : Json → Option Json → Json
or_default value none = value
or_default _ (some value) = value

-- An awaited call outside of a `try`.
abbrev pub after_call : {A : Type 0} → Called A → (A → HandlerReply) → HandlerReply
after_call (gave a) k = k a
after_call (refused e) k = threw e
after_call killed k = died

-- An awaited call in a `try` whose `except Exception` clause answers.
abbrev pub try_call :
    {A : Type 0} → Called A → (Exception → HandlerReply) → (A → HandlerReply) → HandlerReply
try_call (gave a) handle k = k a
try_call (refused e) handle k = handle e
try_call killed handle k = died
