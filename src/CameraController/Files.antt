-- ===== src/CameraController/Files.antt =====
-- The paths, the JSON texts and the writing of files in app/src/camera_controller.cpp and in
-- app/src/user_data_store.cpp.
pub mod Json
use youyeetoo_rk3588_toolkit.Prelude.{
  arith, ◌≡◌, ℕ, suc, ◌||◌, List, [], ◌∷◌, ◌++◌, Option, none, some, ℤ, pos, negsuc, map, ◌==◌,
  if◌then◌else◌,
}
use youyeetoo_rk3588_toolkit.Prelude.Text.{Text, codes, is_empty}
use youyeetoo_rk3588_toolkit.Number.{to_string}
use youyeetoo_rk3588_toolkit.FileSystem.{write_file, parent_path, path_append}
use youyeetoo_rk3588_toolkit.CameraController.{Platform, Session}

-- std::to_string of a signed number.
unfoldable pub int_text : ℤ → Text
unfolding to_string
int_text (pos n) = to_string n
int_text (negsuc n) = b'-' ∷ to_string (suc n)

-- JoinPath
unfoldable pub join_path : Text → Text → Text
unfolding path_append
join_path = path_append

-- The text before the first ? or #.
before_query : Text → Text
before_query [] = []
before_query (c ∷ url) =
    let rest = before_query url in if c == b'?' || c == b'#' then [] else c ∷ rest

-- The text behind the last slash or backslash, if there is one.
behind_slash : Text → Option Text
behind_slash [] = none
behind_slash (c ∷ path) =
    let further = behind_slash path in
    elim further [
      | some name ↦ some name
      | none ↦ if c == b'/' || c == b'\\' then some path else none
    ]

-- FileNameFromUrl
unfoldable pub file_name_from_url : Text → Text
unfolding before_query behind_slash
file_name_from_url url = elim (behind_slash (before_query url)) [
  | none ↦ before_query url
  | some name ↦ name
]

-- The characters for one character in JsonEscape.
abbrev pub escape_char : ℕ → Text
escape_char c =
    if c == b'\\'
    then b'\\' ∷ b'\\' ∷ []
    else if c == 34
    then b'\\' ∷ 34 ∷ []
    else if c == 10
    then b'\\' ∷ b'n' ∷ []
    else if c == 13
    then b'\\' ∷ b'r' ∷ []
    else if c == 9
    then b'\\' ∷ b't' ∷ []
    else c ∷ []

-- JsonEscape
unfoldable pub json_escape : Text → Text
json_escape [] = []
json_escape (c ∷ value) = escape_char c ++ json_escape value

-- A JSON string.
abbrev pub json_text : Text → Text
json_text value = codes "\"" ++ json_escape value ++ codes "\""

-- The lines of the elements of a JSON list, each but the last with a comma.
unfoldable pub json_lines : List Text → Text
json_lines [] = []
json_lines (e ∷ []) = e ++ codes "\n"
json_lines (e ∷ f ∷ rest) = e ++ codes ",\n" ++ json_lines (f ∷ rest)

-- The lines for the members of a JSON object.
abbrev pub member : Text → Text → Text
member name value = codes "  \"" ++ name ++ codes "\": " ++ value

unfoldable pub json_object : List (Text × Text) → Text
unfolding json_lines
json_object members = codes "{\n" ++ json_lines (map (λ m. member m.0 m.1) members) ++ codes "}\n"

-- A list of which each element is a line.
abbrev pub json_list : List Text → Text
json_list elements = codes "[\n" ++ json_lines elements ++ codes "  ]"

module _ (p : Platform) where
  open p use {Device, create_directories}

  -- EnsureDirectoryExists
  unfoldable pub ensure_directory_exists : Text → Session Device → Option Text × Session Device
  ensure_directory_exists path s =
      let (failure, device) = create_directories path s.device in
      if is_empty path
      then (some (codes "output directory is empty"), s)
      else (failure, record s { device = device })

  -- WriteTextFile
  unfoldable pub write_text_file : Text → Text → Session Device → Option Text × Session Device
  unfolding ensure_directory_exists parent_path write_file
  write_text_file path content s = elim (parent_path path) [
    | none ↦ write_here s
    | some parent ↦
        let (failure, s') = ensure_directory_exists parent s in
        elim failure [ none ↦ write_here s' | some message ↦ (some message, s') ]
  ]
    where
      write_here : Session Device → Option Text × Session Device
      write_here s' =
          if s'.files.writable path
          then (none, record s' { files = write_file path content s'.files })
          else (some (codes "failed to write file: " ++ path), s')

  pub ensure_directory_exists-controller :
      (path : Text) (s : Session Device)
      → (ensure_directory_exists path s).1.controller ≡ s.controller
  unfolding ensure_directory_exists
  ensure_directory_exists-controller path s = ground arith

  -- A file is written without a change of the controller.
  pub write_text_file-controller :
      (path content : Text) (s : Session Device)
      → (write_text_file path content s).1.controller ≡ s.controller
  unfolding write_text_file ensure_directory_exists
  write_text_file-controller path content s = ground arith
