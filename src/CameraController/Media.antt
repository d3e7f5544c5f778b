-- ===== src/CameraController/Media.antt =====
-- The tasks of app/src/camera_controller.cpp on the media of the camera: list, download, and batch
-- download.
pub mod Deletion
use youyeetoo_rk3588_toolkit.Prelude.{
  Bool, true, false, not, ◌&&◌, ◌||◌, List, [], ◌∷◌, ◌++◌, Option, none, some, ℤ, pos, length, take,
  is_some, if◌then◌else◌,
}
use youyeetoo_rk3588_toolkit.Prelude.Text.{Text, codes, is_empty, text_eq}
use youyeetoo_rk3588_toolkit.Prelude.Dict.{lookup}
use youyeetoo_rk3588_toolkit.Number.{to_string}
use youyeetoo_rk3588_toolkit.UserDataStore.{default_output_dir}
use youyeetoo_rk3588_toolkit.Camera.{CameraTaskRequest, listing, downloading, deleting}
use youyeetoo_rk3588_toolkit.CameraController.{
  Platform, Session, fail, complete, enter, when_connected, unless_failed,
}
use youyeetoo_rk3588_toolkit.CameraController.Files.{
  int_text, join_path, file_name_from_url, ensure_directory_exists,
}
use youyeetoo_rk3588_toolkit.CameraController.Results.{
  write_latest_media_list_file, write_latest_media_list_json_file,
  write_batch_download_summary_file, write_delete_all_summary_file,
}
use youyeetoo_rk3588_toolkit.CameraController.Entries.{load_latest_media_list}
use youyeetoo_rk3588_toolkit.CameraController.Queries.{with_device, on_snapshot, finish, on_result}
use youyeetoo_rk3588_toolkit.CameraController.Selection.{
  normalize_time_filter_token, select, text_ltb,
}
use youyeetoo_rk3588_toolkit.CameraController.Downloads.{finalize_single_download}

-- The preview of a media list in the summary.
unfoldable pub preview : List Text → Text
preview [] = []
preview (file ∷ []) = file
preview (file ∷ next ∷ files) = file ++ codes "," ++ preview (next ∷ files)

abbrev pub count_text : Option ℤ → Text
count_text none = []
count_text (some count) = codes " reported_count=" ++ int_text count

abbrev filter_text : Text → Text → Text
filter_text time_from time_to =
    (if is_empty time_from then [] else codes " time_from=" ++ time_from)
    ++ (if is_empty time_to then [] else codes " time_to=" ++ time_to)

-- A time filter that was given but cannot be read.
abbrev is_bad_filter : Text → Bool
is_bad_filter given = not (is_empty given) && is_empty (normalize_time_filter_token given)

module _ (p : Platform) where
  open p use {Device, list_media, get_media_count, delete_media}

  -- The count and the list that BeginListMediaTask and BeginDeleteAllMediaTask ask for.
  unfoldable pub ask_media : Session Device → Option ℤ × List Text × Session Device
  ask_media s =
      let (count, device) = get_media_count s.device in
      let (files, device') = list_media device in (count, files, with_device p device' s)

  -- BeginListMediaTask behind the list.
  unfoldable pub report_media : Option ℤ → List Text → Session Device → Session Device
  unfolding on_result complete write_latest_media_list_file write_latest_media_list_json_file
      preview to_string
  report_media count files s =
      let reported : ℤ = elim count [ none ↦ pos (length files) | some n ↦ n ] in
      let s1 = on_snapshot p (λ n. record n { outputs = files; completed_iterations = pos 1 }) s in
      let (written, s2) = write_latest_media_list_file p files reported s1 in
      on_result p written
        (λ path s3.
          let (written', s4) = write_latest_media_list_json_file p files reported s3 in
          on_result p written'
            (λ json_path. complete p (
              codes "listed "
              ++ to_string (length files)
              ++ codes " file(s)"
              ++ count_text count
              ++ (if is_empty files then [] else codes " preview=" ++ preview (take 3 files))
              ++ codes " media_list_file="
              ++ path
              ++ codes " media_list_json="
              ++ json_path))
            s4)
        s2

  unfoldable pub begin_list_media : Session Device → Session Device
  unfolding when_connected enter fail ask_media report_media
  begin_list_media = when_connected p (λ s.
      let (count, files, s1) = ask_media (enter p listing s) in
      if not (is_some count) && is_empty files
      then fail p (codes "failed to list camera media") s1
      else report_media count files s1)

  -- The directory that a download goes to.
  abbrev output_dir_of : Session Device → Text → Text
  output_dir_of s default =
      if is_empty s.controller.task.request.output_dir
      then default
      else s.controller.task.request.output_dir

  abbrev default_dir : Session Device → Text
  default_dir s = default_output_dir s.controller.camera_namespace s.files

  unfoldable pub begin_download_media : Session Device → Session Device
  unfolding when_connected fail unless_failed ensure_directory_exists enter finalize_single_download
      finish default_output_dir
  begin_download_media = when_connected p (λ s.
      let request = s.controller.task.request in
      let output_dir = output_dir_of s (default_dir s) in
      let (failure, s1) = ensure_directory_exists p output_dir s in
      let local_path =
        if is_empty request.local_path
        then join_path output_dir (file_name_from_url request.remote_path)
        else request.local_path in
      let (downloaded, s2) =
        finalize_single_download p request.remote_path local_path (enter p downloading s1) in
      if is_empty request.remote_path
      then fail p (codes "download task requires remote_path") s
      else unless_failed p failure s1
          (if downloaded then finish p (codes "downloaded 1 file to " ++ local_path) s2 else s2))

  -- The loop over the files of a batch, which the first failure ends.
  unfoldable pub download_all : Text → List Text → Session Device → Bool × Session Device
  unfolding finalize_single_download
  download_all output_dir [] s = (true, s)
  download_all output_dir (file ∷ files) s =
      let (downloaded, s') =
        finalize_single_download p file (join_path output_dir (file_name_from_url file)) s in
      let rest = download_all output_dir files s' in if downloaded then rest else (false, s')

  -- BeginBatchDownloadTask behind the selection of the files.
  unfoldable pub download_batch :
      Text → Text → Text → List Text → List Text → Session Device → Session Device
  unfolding enter download_all on_result complete write_batch_download_summary_file to_string
  download_batch output_dir time_from time_to listed selected s =
      let s1 = on_snapshot p (λ n. record n { outputs = [] }) (enter p downloading s) in
      let (downloaded, s2) = download_all output_dir selected s1 in
      let outputs = s2.controller.snapshot.outputs in
      let s3 =
        on_snapshot p
          (λ n. record n {
            completed_iterations = pos (length outputs);
            total_iterations = pos (length selected);
          })
          s2 in
      let (written, s4) = write_batch_download_summary_file p outputs s3 in
      if downloaded
      then on_result p written
          (λ path. complete p (
            codes "batch downloaded "
            ++ to_string (length outputs)
            ++ codes " file(s) summary_file="
            ++ path
            ++ filter_text time_from time_to
            ++ codes " matched="
            ++ to_string (length selected)
            ++ codes " listed_total="
            ++ to_string (length listed)))
          s4
      else s2

  -- BeginBatchDownloadTask for a list that was read.
  unfoldable pub batch_of : Text → List Text → Session Device → Session Device
  unfolding fail download_batch select text_ltb normalize_time_filter_token
  batch_of output_dir remote_files s =
      let request = s.controller.task.request in
      let time_from = normalize_time_filter_token request.batch_time_from in
      let time_to = normalize_time_filter_token request.batch_time_to in
      let selected = select time_from time_to remote_files in
      if is_empty remote_files
      then fail p (codes "latest media list contains no file") s
      else if is_bad_filter request.batch_time_from || is_bad_filter request.batch_time_to
      then fail p (codes "invalid batch time filter, expected YYYYMMDD_HHMMSS or YYYYMMDDHHMMSS") s
      else if (not (is_empty time_from) && not (is_empty time_to)) && text_ltb time_to time_from
      then fail p (codes "batch time filter time_from is later than time_to") s
      else if is_empty selected
      then fail p
          (codes "latest media list contains no file within time filter"
            ++ filter_text time_from time_to)
          s
      else download_batch output_dir time_from time_to remote_files selected s

  unfoldable pub begin_batch_download : Session Device → Session Device
  unfolding when_connected unless_failed ensure_directory_exists on_result batch_of
      load_latest_media_list default_output_dir
  begin_batch_download = when_connected p (λ s.
      let output_dir = output_dir_of s (join_path (default_dir s) (codes "batch")) in
      let (failure, s1) = ensure_directory_exists p output_dir s in
      unless_failed p failure s1
        (on_result p (load_latest_media_list s1.controller s1.files) (batch_of output_dir) s1))
