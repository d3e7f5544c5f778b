-- ===== src/CameraController/Entries.antt =====
-- What stands in the files of app/src/camera_controller.cpp: their paths, the entries of the lists of
-- media and of cameras, and the reading of the list of media.
use youyeetoo_rk3588_toolkit.Prelude.{
  ℕ, ◌+◌, List, [], ◌∷◌, ◌++◌, none, some, map, ◌==◌, length, if◌then◌else◌,
}
use youyeetoo_rk3588_toolkit.Prelude.Text.{Text, codes}
use youyeetoo_rk3588_toolkit.Number.{to_string}
use youyeetoo_rk3588_toolkit.Result.{Result, ok, err}
use youyeetoo_rk3588_toolkit.FileSystem.{FileSystem, lines}
use youyeetoo_rk3588_toolkit.UserDataStore.{build_runtime_path}
use youyeetoo_rk3588_toolkit.Camera.{CameraInfo}
use youyeetoo_rk3588_toolkit.CameraController.{CameraController}
use youyeetoo_rk3588_toolkit.CameraController.Files.{file_name_from_url, json_text, json_list}

-- ComputeFileSize
unfoldable pub compute_file_size : Text → FileSystem → ℕ
compute_file_size path fs = elim (fs.contents path) [ none ↦ 0 | some text ↦ length text ]

-- Paths in the runtime directory, for the namespace of the data store.
unfoldable pub runtime_path : Text → Text → CameraController → FileSystem → Text
unfolding build_runtime_path
runtime_path base extension c fs = build_runtime_path base extension c.camera_namespace fs

unfoldable pub media_list_path : CameraController → FileSystem → Text
unfolding runtime_path
media_list_path = runtime_path (codes "camera_last_media_list") (codes ".txt")

-- The elements of media_files in the JSON list, numbered from `i`.
unfoldable pub media_entries : ℕ → List Text → List Text
unfolding to_string file_name_from_url
media_entries i [] = []
media_entries i (file ∷ files) =
    (codes "    {\n      \"index\": "
      ++ to_string i
      ++ codes ",\n      \"remote_path\": "
      ++ json_text file
      ++ codes ",\n      \"file_name\": "
      ++ json_text (file_name_from_url file)
      ++ codes "\n    }")
    ∷ media_entries (i + 1) files

-- The elements of cameras in the device list, numbered from `i`.
unfoldable pub camera_entries : ℕ → List CameraInfo → List Text
unfolding to_string
camera_entries i [] = []
camera_entries i (camera ∷ cameras) =
    (codes "    {\n      \"camera_id\": \"cam"
      ++ to_string i
      ++ codes "\",\n      \"serial\": "
      ++ json_text camera.serial_number
      ++ codes ",\n      \"camera_name\": "
      ++ json_text camera.camera_name
      ++ codes ",\n      \"firmware_version\": "
      ++ json_text camera.firmware_version
      ++ codes ",\n      \"camera_type\": "
      ++ json_text camera.model_key
      ++ codes ",\n      \"model_key\": "
      ++ json_text camera.model_key
      ++ codes ",\n      \"capabilities\": "
      ++ json_text camera.capabilities
      ++ codes "\n    }")
    ∷ camera_entries (i + 1) cameras

-- A list of paths in a summary.
abbrev pub path_list : List Text → Text
path_list paths = json_list (map (λ path. codes "    " ++ json_text path) paths)

-- The lines of the media list that name a file.
unfoldable pub media_lines : List Text → List Text
media_lines [] = []
media_lines ([] ∷ rest) = media_lines rest
media_lines ((c ∷ line) ∷ rest) =
    let files = media_lines rest in if c == b'#' then files else (c ∷ line) ∷ files

-- LoadLatestMediaList
unfoldable pub load_latest_media_list : CameraController → FileSystem → Result (List Text)
unfolding media_lines lines media_list_path
load_latest_media_list c fs =
    let path = media_list_path c fs in
    elim (fs.contents path) [
      | none ↦ err (codes "file not found: " ++ path)
      | some text ↦ ok (media_lines (lines text))
    ]
