-- ===== src/CameraController/Results.antt =====
-- The files that the tasks of app/src/camera_controller.cpp write: results, summaries, the list of
-- media and the metadata of a download. A writer gives the path of its file, or its error.
use youyeetoo_rk3588_toolkit.Prelude.{
  Bool, List, [], ◌∷◌, ◌++◌, Option, none, some, ℤ, length, if◌then◌else◌,
}
use youyeetoo_rk3588_toolkit.Prelude.Text.{Text, codes, is_empty, text_eq}
use youyeetoo_rk3588_toolkit.Number.{to_string}
use youyeetoo_rk3588_toolkit.Result.{Result, ok, err}
use youyeetoo_rk3588_toolkit.UserDataStore.{
  build_runtime_path, runtime_root_dir, default_output_dir,
}
use youyeetoo_rk3588_toolkit.Camera.{CameraInfo}
use youyeetoo_rk3588_toolkit.CameraController.{Platform, Session}
use youyeetoo_rk3588_toolkit.CameraController.Names.{task_type_to_string}
use youyeetoo_rk3588_toolkit.CameraController.Files.{
  int_text, join_path, json_text, json_object, json_list, write_text_file,
}
use youyeetoo_rk3588_toolkit.CameraController.Entries.{
  compute_file_size, runtime_path, media_list_path, media_entries, camera_entries, path_list,
}

module _ (p : Platform) where
  open p use {Device, timestamp, current_serial_number}

  -- ActiveSerialNumber
  unfoldable pub active_serial_number : Session Device → Text
  active_serial_number s =
      let current = current_serial_number s.device in
      let target = s.controller.task.request.target_camera_serial in
      if is_empty current
      then (if is_empty target then s.controller.options.serial_number else target)
      else current

  -- The members that results have in common.
  abbrev pub task_members : Session Device → List (Text × Text)
  task_members s =
      (codes "task_id", int_text s.controller.task.request.task_id)
      ∷ (codes "task_type", json_text (task_type_to_string s.controller.task.request.task_type))
      ∷ []

  abbrev pub serial_member : Session Device → Text × Text
  serial_member s = (codes "serial", json_text (active_serial_number s))

  abbrev pub time_member : Text → Session Device → Text × Text
  time_member name s = (name, json_text (timestamp s.device))

  -- Write a file, and give its path.
  unfoldable pub write_result : Text → Text → Session Device → Result Text × Session Device
  unfolding write_text_file
  write_result path content s =
      let (failure, s') = write_text_file p path content s in
      (elim failure [ none ↦ ok path | some message ↦ err message ], s')

  -- WriteMetadataFile
  unfoldable pub write_metadata_file :
      Text → Text → Bool → Session Device → Option Text × Session Device
  unfolding compute_file_size json_object
  write_metadata_file local_path remote_path recovered s =
      write_text_file p (local_path ++ codes ".json")
        (json_object (
          task_members s
          ++ (serial_member s
              ∷ (codes "remote_path", json_text remote_path)
              ∷ (codes "local_path", json_text local_path)
              ∷ (codes "file_size", to_string (compute_file_size local_path s.files))
              ∷ (codes "checksum_type", json_text (codes "disabled"))
              ∷ (codes "checksum", json_text [])
              ∷ (codes "recovered", codes (if recovered then "true" else "false"))
              ∷ (codes "media_time", int_text s.controller.snapshot.runtime_status.media_time)
              ∷ time_member (codes "created_at") s
              ∷ [])))
        s

  -- The second copy of a media list, under the path without a namespace.
  unfoldable pub mirror : Text → Text → Text → Session Device → Session Device
  unfolding write_text_file
  mirror path extension content s =
      let fallback = build_runtime_path (codes "camera_last_media_list") extension [] s.files in
      if text_eq path fallback then s else (write_text_file p fallback content s).1

  -- A media list with its mirror.
  unfoldable pub write_mirrored : Text → Text → Text → Session Device → Result Text × Session Device
  unfolding write_text_file mirror
  write_mirrored path extension content s =
      let (failure, s') = write_text_file p path content s in
      elim failure [
        | none ↦ (ok path, mirror path extension content s')
        | some message ↦ (err message, s')
      ]

  -- WriteLatestMediaListFile
  unfoldable pub write_latest_media_list_file :
      List Text → ℤ → Session Device → Result Text × Session Device
  unfolding write_mirrored media_list_path
  write_latest_media_list_file files reported_count s =
      write_mirrored (media_list_path s.controller s.files) (codes ".txt")
        (codes "# generated_at="
          ++ timestamp s.device
          ++ codes "\n# task_id="
          ++ int_text s.controller.task.request.task_id
          ++ codes "\n# reported_count="
          ++ int_text reported_count
          ++ codes "\n"
          ++ all_lines files)
        s
    where
      all_lines : List Text → Text
      all_lines [] = []
      all_lines (file ∷ rest) = file ++ codes "\n" ++ all_lines rest

  -- WriteLatestMediaListJsonFile
  unfoldable pub write_latest_media_list_json_file :
      List Text → ℤ → Session Device → Result Text × Session Device
  unfolding write_mirrored runtime_path media_entries json_object
  write_latest_media_list_json_file files reported_count s =
      write_mirrored
        (runtime_path (codes "camera_last_media_list") (codes ".json") s.controller s.files)
        (codes ".json")
        (json_object (
          task_members s
          ++ (time_member (codes "generated_at") s
              ∷ (codes "reported_count", int_text reported_count)
              ∷ (codes "listed_count", to_string (length files))
              ∷ (codes "media_files", json_list (media_entries 0 files))
              ∷ [])))
        s

  -- WriteBatchDownloadSummaryFile
  unfoldable pub write_batch_download_summary_file :
      List Text → Session Device → Result Text × Session Device
  unfolding write_result join_path default_output_dir json_object
  write_batch_download_summary_file local_paths s =
      let output_dir = s.controller.task.request.output_dir in
      let base =
        if is_empty output_dir
        then join_path (default_output_dir s.controller.camera_namespace s.files) (codes "batch")
        else output_dir in
      write_result (join_path base (codes "batch_download_summary.json"))
        (json_object (
          task_members s
          ++ (time_member (codes "created_at") s
              ∷ (codes "downloaded_count", to_string (length local_paths))
              ∷ (codes "local_files", path_list local_paths)
              ∷ [])))
        s

  -- WriteDeleteAllSummaryFile
  unfoldable pub write_delete_all_summary_file :
      List Text → List Text → Session Device → Result Text × Session Device
  unfolding write_result runtime_path json_object
  write_delete_all_summary_file deleted_paths failed_paths s =
      write_result
        (runtime_path (codes "camera_delete_all_summary") (codes ".json") s.controller s.files)
        (json_object (
          task_members s
          ++ (serial_member s
              ∷ time_member (codes "created_at") s
              ∷ (
                codes "status",
                json_text (codes (if is_empty failed_paths then "ok" else "partial")),
              )
              ∷ (codes "deleted_count", to_string (length deleted_paths))
              ∷ (codes "failed_count", to_string (length failed_paths))
              ∷ (codes "deleted_remote_paths", path_list deleted_paths)
              ∷ (codes "failed_remote_paths", path_list failed_paths)
              ∷ [])))
        s

  -- The result of a query, with the member that is its own before or behind the time.
  unfoldable pub write_query_file :
      Text → List (Text × Text) → Session Device → Result Text × Session Device
  unfolding write_result runtime_path json_object
  write_query_file base members s =
      write_result (runtime_path base (codes ".json") s.controller s.files)
        (json_object (task_members s ++ (serial_member s ∷ members))) s

  -- WriteMediaTimeResultFile
  unfoldable pub write_media_time_result_file : ℤ → Session Device → Result Text × Session Device
  unfolding write_query_file
  write_media_time_result_file media_time s =
      write_query_file (codes "camera_media_time")
        ((codes "media_time", int_text media_time) ∷ time_member (codes "created_at") s ∷ []) s

  -- WriteParamQueryResultFile
  unfoldable pub write_param_query_result_file :
      Text → Session Device → Result Text × Session Device
  unfolding write_query_file
  write_param_query_result_file json_body s =
      write_query_file (codes "camera_param_query")
        (time_member (codes "created_at") s ∷ (codes "parameters", json_body) ∷ []) s

  -- WriteLogQueryResultFile
  unfoldable pub write_log_query_result_file : Text → Session Device → Result Text × Session Device
  unfolding write_query_file
  write_log_query_result_file log_url s =
      write_query_file (codes "camera_log_query")
        ((codes "log_url", json_text log_url) ∷ time_member (codes "created_at") s ∷ []) s

  -- WriteDeviceListResultFile
  unfoldable pub write_device_list_result_file :
      List CameraInfo → Session Device → Result Text × Session Device
  unfolding write_result runtime_root_dir camera_entries json_object
  write_device_list_result_file cameras s =
      write_result (runtime_root_dir s.files ++ codes "/camera_device_list.json")
        (json_object (
          task_members s
          ++ (time_member (codes "generated_at") s
              ∷ (codes "camera_count", to_string (length cameras))
              ∷ (codes "cameras", json_list (camera_entries 0 cameras))
              ∷ [])))
        s
