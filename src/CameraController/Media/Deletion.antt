-- ===== src/CameraController/Media/Deletion.antt =====
-- The tasks of app/src/camera_controller.cpp that delete media of the camera.
use youyeetoo_rk3588_toolkit.Prelude.{
  Bool, false, List, [], ◌∷◌, ◌++◌, Option, none, some, ℤ, pos, length, is_some, if◌then◌else◌,
}
use youyeetoo_rk3588_toolkit.Prelude.Text.{Text, codes, is_empty, text_eq}
use youyeetoo_rk3588_toolkit.Prelude.Dict.{lookup}
use youyeetoo_rk3588_toolkit.Number.{to_string}
use youyeetoo_rk3588_toolkit.Camera.{CameraTaskRequest, deleting}
use youyeetoo_rk3588_toolkit.CameraController.{
  Platform, Session, fail, complete, enter, when_connected,
}
use youyeetoo_rk3588_toolkit.CameraController.Results.{write_delete_all_summary_file}
use youyeetoo_rk3588_toolkit.CameraController.Queries.{with_device, on_snapshot, finish, on_result}
use youyeetoo_rk3588_toolkit.CameraController.Media.{ask_media, count_text}

-- Whether the request confirms that all media are to be deleted.
abbrev pub confirms_delete_all : CameraTaskRequest → Bool
confirms_delete_all request = elim (lookup (codes "confirm") request.parameters) [
  | none ↦ false
  | some value ↦ text_eq value (codes "DELETE_ALL")
]

module _ (p : Platform) where
  open p use {Device, delete_media}

  unfoldable pub begin_delete_media : Session Device → Session Device
  unfolding when_connected fail enter finish
  begin_delete_media = when_connected p (λ s.
      let request = s.controller.task.request in
      let s1 = enter p deleting s in
      let (deleted, device) = delete_media request.remote_path s1.device in
      let s2 = with_device p device s1 in
      if is_empty request.remote_path
      then fail p (codes "delete task requires remote_path") s
      else if request.delete_confirmed
      then if deleted
        then finish p (codes "deleted media " ++ request.remote_path)
            (on_snapshot p (λ n. record n { outputs = request.remote_path ∷ [] }) s2)
        else fail p (codes "failed to delete media " ++ request.remote_path) s2
      else fail p (codes "delete task requires explicit confirmation") s)

  -- The loop of BeginDeleteAllMediaTask: the files deleted, and those that were not.
  unfoldable pub delete_each : List Text → Device → List Text × List Text × Device
  delete_each [] device = ([], [], device)
  delete_each (file ∷ files) device =
      let (deleted, device') = delete_media file device in
      let (done, left, device'') = delete_each files device' in
      if deleted then (file ∷ done, left, device'') else (done, file ∷ left, device'')

  -- BeginDeleteAllMediaTask for a list that is not empty.
  unfoldable pub delete_listed : Option ℤ → List Text → Session Device → Session Device
  unfolding delete_each on_result complete write_delete_all_summary_file to_string
  delete_listed count files s =
      let (done, left, device) = delete_each files s.device in
      let s1 =
        on_snapshot p
          (λ n. record n {
            outputs = done;
            completed_iterations = pos (length done);
            total_iterations = pos (length files);
          })
          (with_device p device s) in
      let (written, s2) = write_delete_all_summary_file p done left s1 in
      on_result p written
        (λ path. complete p (
          (if is_empty left
            then codes "deleted all media count=" ++ to_string (length done)
            else codes "delete-all partial deleted="
              ++ to_string (length done)
              ++ codes " failed="
              ++ to_string (length left))
          ++ codes " summary_file="
          ++ path
          ++ count_text count))
        s2

  unfoldable pub begin_delete_all_media : Session Device → Session Device
  unfolding when_connected fail enter finish ask_media delete_listed
  begin_delete_all_media = when_connected p (λ s.
      let request = s.controller.task.request in
      let (count, files, s1) = ask_media p (enter p deleting s) in
      if request.delete_confirmed
      then if confirms_delete_all request
        then if is_empty files
          then if is_some count
            then finish p (codes "delete-all skipped no media found")
                (on_snapshot p (λ n. record n { outputs = [] }) s1)
            else fail p (codes "failed to list camera media before delete-all") s1
          else delete_listed count files s1
        else fail p (codes "delete-all task requires runtime parameter confirm=DELETE_ALL") s
      else fail p (codes "delete-all task requires explicit confirmation") s)
