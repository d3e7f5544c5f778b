-- ===== src/CameraController/Selection.antt =====
-- The time filter of the batch download in app/src/camera_controller.cpp: which files of a media
-- list it takes, by the time in their names.
pub mod Window
use youyeetoo_rk3588_toolkit.Prelude.{
  Bool, true, false, not, ◌&&◌, ◌||◌, List, [], ◌∷◌, ◌++◌, Option, none, some, ◌==◌, leb, ltb,
  length, take, drop, if◌then◌else◌,
}
use youyeetoo_rk3588_toolkit.Prelude.Text.{Text, is_empty, is_digit, split_at}

-- std::string::operator<
unfoldable pub text_ltb : Text → Text → Bool
text_ltb a [] = false
text_ltb [] (d ∷ b) = true
text_ltb (c ∷ a) (d ∷ b) = if ltb c d then true else if c == d then text_ltb a b else false

abbrev pub all_digits : Text → Bool
all_digits [] = true
all_digits (c ∷ cs) = is_digit c && all_digits cs

-- The digits of a time, without the separators between them; nothing if anything else occurs.
unfoldable pub time_digits : Text → Option Text
time_digits [] = some []
time_digits (c ∷ cs) =
    let rest = time_digits cs in
    if is_digit c
    then (elim rest [ none ↦ none | some digits ↦ some (c ∷ digits) ])
    else if (((c == b'_' || c == b'-') || c == b':') || c == b'T') || c == b' '
    then rest
    else none

-- NormalizeTimeFilterToken
unfoldable pub normalize_time_filter_token : Text → Text
unfolding time_digits
normalize_time_filter_token value = elim (time_digits value) [
  | none ↦ []
  | some digits ↦ if length digits == 14 then digits else []
]

-- fs::path::filename
pub file_name : Text → Text
file_name [] = []
file_name (c ∷ path) =
    let rest = file_name path in
    if c == b'/' then rest else if has_slash path then rest else c ∷ path
  where
    has_slash : Text → Bool
    has_slash [] = false
    has_slash (d ∷ cs) = d == b'/' || has_slash cs

-- The date and the time behind the first underscore of a name.
unfoldable pub token_behind : Text → Option Text
token_behind tail =
    let date_part = take 8 tail in
    let time_part = take 6 (drop 9 tail) in
    if (leb 15 (length tail) && (is_underscore (drop 8 tail) && all_digits date_part))
      && all_digits time_part
    then some (date_part ++ time_part)
    else none
  where
    is_underscore : Text → Bool
    is_underscore [] = false
    is_underscore (c ∷ cs) = c == b'_'

-- ExtractMediaTimestampToken
unfoldable pub extract_media_timestamp_token : Text → Option Text
unfolding file_name split_at token_behind
extract_media_timestamp_token remote_path = elim (split_at b'_' (file_name remote_path)) [
  | none ↦ none
  | some (_, tail) ↦ token_behind tail
]

-- The body of the loop of BeginBatchDownloadTask over the listed files: whether one is taken.
unfoldable pub is_selected : (time_from time_to : Text) → Text → Bool
unfolding extract_media_timestamp_token text_ltb
is_selected time_from time_to remote_path =
    if is_empty time_from && is_empty time_to
    then true
    else elim (extract_media_timestamp_token remote_path) [
      | none ↦ false
      | some token ↦
          not (not (is_empty time_from) && text_ltb token time_from)
          && not (not (is_empty time_to) && text_ltb time_to token)
    ]

unfoldable pub select : (time_from time_to : Text) → List Text → List Text
unfolding is_selected
select time_from time_to [] = []
select time_from time_to (file ∷ files) =
    let rest = select time_from time_to files in
    if is_selected time_from time_to file then file ∷ rest else rest
