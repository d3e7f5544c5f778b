-- ===== src/Telemetry/Parse.antt =====
-- The two line formats of app/src/telemetry_command_interface.cpp.
use youyeetoo_rk3588_toolkit.Prelude.{
  ℕ, ◌+◌, Bool, true, false, ◌||◌, List, [], ◌∷◌, ◌++◌, Option, none, some, ℤ, ◌==◌, if◌then◌else◌,
}
use youyeetoo_rk3588_toolkit.Prelude.Text.{
  Text, codes, text_eq, is_empty, is_space, trim_by, split, split_at, split_whitespace,
}
use youyeetoo_rk3588_toolkit.Prelude.Dict.{insert}
use youyeetoo_rk3588_toolkit.Result.{Result, ok, err, ◌>>=◌}
use youyeetoo_rk3588_toolkit.Number.{stoi, to_string}
use youyeetoo_rk3588_toolkit.Command.{CommandCategory, unknown, parse_category}

pub record CommandDefinition : Type 0 where
  pub command_name : Text
  pub category : CommandCategory
  pub task_name : Text
  pub repeat_count : ℤ
  pub output_dir : Text
  pub remote_path : Text
  pub local_path : Text
  pub delete_confirmed : Bool

unfoldable pub trim : Text → Text
unfolding trim_by
trim = trim_by is_space

-- A line that is blank or begins with #.
unfoldable pub is_comment_or_blank : Text → Bool
is_comment_or_blank [] = true
is_comment_or_blank (c ∷ cs) = c == b'#'

unfoldable pub parse_bool : Text → Option Bool
parse_bool value =
    if text_eq value (codes "true") || text_eq value (codes "1") || text_eq value (codes "yes")
    then some true
    else if text_eq value (codes "false")
        || text_eq value (codes "0")
        || text_eq value (codes "no")
        || is_empty value
    then some false
    else none

abbrev pub is_unknown : CommandCategory → Bool
is_unknown unknown = true
is_unknown _ = false

abbrev pub or_fail {ℓ} : {A : Type ℓ} → Text → Option A → Result A
or_fail message none = err message
or_fail message (some a) = ok a

-- The eight fields of a definition.
unfoldable pub parse_fields : List Text → Result CommandDefinition
parse_fields (a ∷ b ∷ c ∷ d ∷ e ∷ f ∷ g ∷ h ∷ []) =
    let name = trim a in
    let category = parse_category (trim b) in
    let task = trim c in
    if is_empty name || is_unknown category || is_empty task
    then err (codes "command name, category or task name is invalid")
    else do
      count ← or_fail (codes "repeat_count must be integer") (stoi (trim d))
      confirmed ← or_fail (codes "delete_confirmed must be true/false") (parse_bool (trim h))
      ok (record {
        command_name = name;
        category = category;
        task_name = task;
        repeat_count = count;
        output_dir = trim e;
        remote_path = trim f;
        local_path = trim g;
        delete_confirmed = confirmed;
      })
parse_fields _ = err (codes "expected 8 pipe-separated fields")

-- ParseDefinitionLine
unfoldable pub parse_definition_line : Text → Result CommandDefinition
unfolding parse_fields parse_bool trim
parse_definition_line line = parse_fields (split b'|' line)

-- The loop of LoadDefinitions from line `n` on, with the definitions so far.
unfoldable pub parse_definitions :
    ℕ → List Text → List (Text × CommandDefinition) → Result (List (Text × CommandDefinition))
unfolding is_comment_or_blank
parse_definitions n [] definitions = ok definitions
parse_definitions n (l ∷ ls) definitions = elim (is_comment_or_blank (trim l)) [
  | true ↦ parse_definitions (n + 1) ls definitions
  | false ↦ elim (parse_definition_line (trim l)) [
    | err message ↦
        err ((codes "definition parse error line " ++ to_string n) ++ (codes ": " ++ message))
    | ok definition ↦
        parse_definitions (n + 1) ls (insert definition.command_name definition definitions)
  ]
]

-- One `key=value` word of a command line.
unfoldable pub parse_parameter : Text → Result (Text × Text)
parse_parameter word = elim (split_at b'=' word) [
  | none ↦ err (codes "invalid command parameter: " ++ word)
  | some (key, value) ↦
      if is_empty key || is_empty value
      then err (codes "invalid command parameter: " ++ word)
      else if is_empty (trim key) || is_empty (trim value)
      then err (codes "command parameter key/value is empty: " ++ word)
      else ok (trim key, trim value)
]

unfoldable pub parse_parameters : List Text → List (Text × Text) → Result (List (Text × Text))
unfolding parse_parameter
parse_parameters [] params = ok params
parse_parameters (word ∷ rest) params = do
  pair ← parse_parameter word
  parse_parameters rest (insert pair.0 pair.1 params)

abbrev parse_words : List Text → Result (Text × List (Text × Text))
parse_words [] = err (codes "command line is empty")
parse_words (name ∷ rest) = do params ← parse_parameters rest []; ok (name, params)

-- ParseCommandLine: the command's name and its parameters.
unfoldable pub parse_command_line : Text → Result (Text × List (Text × Text))
unfolding parse_parameters trim
parse_command_line line = parse_words (split_whitespace (trim line))
