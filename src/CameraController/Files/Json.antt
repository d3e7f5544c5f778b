-- ===== src/CameraController/Files/Json.antt =====
-- JsonEscape of app/src/camera_controller.cpp, and a reader of JSON strings.
use youyeetoo_rk3588_toolkit.Prelude.{
  arith, ◌≡◌, refl, ℕ, Bool, true, ◌&&◌, ◌||◌, Option, some, none, [], ◌∷◌, ◌++◌, ltb, leb, ◌==◌,
  if◌then◌else◌,
}
use youyeetoo_rk3588_toolkit.Prelude.Text.{Text}
use youyeetoo_rk3588_toolkit.CameraController.Files.{json_escape, escape_char}

-- The character behind a backslash; the escapes of RFC 8259 but \b, \f and \u.
unfoldable pub unescape : ℕ → Option ℕ
unescape c =
    if (c == b'\\' || c == 34) || c == b'/'
    then some c
    else if c == b'n'
    then some 10
    else if c == b'r'
    then some 13
    else if c == b't'
    then some 9
    else none

abbrev prepend : Option ℕ → Option (Text × Text) → Option (Text × Text)
prepend none o = none
prepend (some c) none = none
prepend (some c) (some (s, rest)) = some (c ∷ s, rest)

-- A string up to its closing quote, and what follows it. A control character must be escaped.
unfoldable pub read_json_string : Text → Option (Text × Text)
unfolding unescape
read_json_string [] = none
read_json_string (c ∷ []) = if c == 34 then some ([], []) else none
read_json_string (c ∷ d ∷ s) =
    let plain = read_json_string (d ∷ s) in
    let escaped = read_json_string s in
    if c == 34
    then some ([], d ∷ s)
    else if c == b'\\'
    then prepend (unescape d) escaped
    else if ltb c 32
    then none
    else prepend (some c) plain

-- No control character but a newline, a carriage return and a tab.
unfoldable pub is_plain : Text → Bool
is_plain [] = true
is_plain (c ∷ s) = (((leb 32 c || c == 10) || c == 13) || c == 9) && is_plain s

read_escaped :
    (c : ℕ) (s : Text)
    → read_json_string (escape_char c ++ s) ≡ (
        if ((leb 32 c || c == 10) || c == 13) || c == 9
        then prepend (some c) (read_json_string s)
        else none)
unfolding read_json_string unescape
read_escaped c [] = ground arith
read_escaped c (d ∷ s) = ground arith

read_closed : (rest : Text) → read_json_string (34 ∷ rest) ≡ some ([], rest)
unfolding read_json_string
read_closed [] = refl
read_closed (c ∷ rest) = refl

-- An escaped text is read back with what follows it, unless a control character stands in it that is
-- no newline, carriage return or tab; then it is no JSON string.
pub read_json_string-json_escape :
    (value rest : Text)
    → read_json_string (json_escape value ++ (34 ∷ rest))
      ≡ (if is_plain value then some (value, rest) else none)
unfolding json_escape is_plain
read_json_string-json_escape [] rest = read_closed rest
read_json_string-json_escape (c ∷ value) rest = ground (
  arith,
  read_escaped c (json_escape value ++ (34 ∷ rest)),
  read_json_string-json_escape value rest,
)
