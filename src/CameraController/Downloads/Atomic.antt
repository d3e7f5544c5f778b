-- ===== src/CameraController/Downloads/Atomic.antt =====
-- FinalizeSingleDownload of app/src/camera_controller.cpp and the file it is to write: what stands
-- there is the old content or all of what the SDK has downloaded.
use youyeetoo_rk3588_toolkit.Prelude.{
  arith, ◌≡◌, refl, ap, ◌∙◌, ◌⊎◌, inl, inr, ℕ, Bool, true, false, Option, some, none, [], ◌∷◌, ◌++◌,
  ℤ, pos, is_some,
}
use youyeetoo_rk3588_toolkit.Prelude.Text.{
  Text, text_eq, text_eq-append, text_eq_refl, codes, is_empty,
}
use youyeetoo_rk3588_toolkit.FileSystem.{FileSystem, rename, remove, write_file}
use youyeetoo_rk3588_toolkit.CameraController.{Platform, Session, fail, fail_task, reset_task}
use youyeetoo_rk3588_toolkit.CameraController.Files.{
  write_text_file, write_text_file-controller, ensure_directory_exists,
}
use youyeetoo_rk3588_toolkit.CameraController.Results.{write_metadata_file}
use youyeetoo_rk3588_toolkit.CameraController.Downloads.{
  finalize_single_download, with_files, part_path, download_failed, fetched, renamed,
  record_download, download_timeout_ms,
}

remove-other :
    (path q : Text) (fs : FileSystem)
    → text_eq path q ≡ false
    → (remove path fs).contents q ≡ fs.contents q
unfolding remove
remove-other path q fs h = ground arith

rename-to :
    (from to : Text) (fs files : FileSystem)
    → rename from to fs ≡ some files
    → files.contents to ≡ fs.contents from
unfolding rename
rename-to from to fs files h = ground (arith, text_eq_refl to)

suffix-other :
    (path suffix : Text) → is_empty suffix ≡ false → text_eq (path ++ suffix) path ≡ false
suffix-other path [] h = ground arith
suffix-other path (c ∷ suffix) h = text_eq-append path c suffix

-- The two files beside a download are others.
json-other : (path : Text) → text_eq (path ++ codes ".json") path ≡ false
unfolding codes
json-other path = suffix-other path _ refl

part-other : (path : Text) → text_eq (part_path path) path ≡ false
unfolding codes
part-other path = suffix-other path _ refl

module _ (p : Platform) where
  open p use {Device, download_media}

  -- The SDK writes no file but the one that it is told to write.
  abbrev pub WritesOnlyTarget : Type 0
  WritesOnlyTarget =
      (remote_path path : Text) (timeout_ms : ℤ) (device : Device) (fs : FileSystem) (q : Text)
      → text_eq path q ≡ false
      → (download_media remote_path path timeout_ms device fs).2.contents q ≡ fs.contents q

  write_text_file-other :
      (path content q : Text) (s : Session Device)
      → text_eq path q ≡ false
      → (write_text_file p path content s).1.files.contents q ≡ s.files.contents q
  unfolding write_text_file ensure_directory_exists write_file
  write_text_file-other path content q s h = ground arith

  write_text_file-written :
      (path content : Text) (s : Session Device)
      → (write_text_file p path content s).0 ≡ none
      → (write_text_file p path content s).1.files.contents path ≡ some content
  unfolding write_text_file ensure_directory_exists write_file
  write_text_file-written path content s h = ground (arith, text_eq_refl path)

  write_metadata_file-other :
      (remote_path local_path q : Text) (recovered : Bool) (s : Session Device)
      → text_eq (local_path ++ codes ".json") q ≡ false
      → (write_metadata_file p local_path remote_path recovered s).1.files.contents q
        ≡ s.files.contents q
  unfolding write_metadata_file
  write_metadata_file-other remote_path local_path q recovered s h = write_text_file-other _ _ q s h

  record_download-local :
      (remote_path local_path : Text) (recovered : Bool) (s : Session Device)
      → (record_download p remote_path local_path recovered s).1.files.contents local_path
        ≡ s.files.contents local_path
  unfolding record_download fail fail_task reset_task
  record_download-local remote_path local_path recovered s = ground (
    arith,
    write_metadata_file-other remote_path local_path local_path recovered s (json-other local_path),
  )

  renamed-local :
      (remote_path local_path : Text) (recovered : Bool) (o : Option FileSystem)
      (s : Session Device)
      → rename (part_path local_path) local_path s.files ≡ o
      → (let after = (renamed p remote_path local_path recovered o s).1.files.contents local_path in
          (after ≡ s.files.contents local_path) ⊎ (after ≡ s.files.contents (part_path local_path)))
  unfolding renamed fail fail_task reset_task
  renamed-local remote_path local_path recovered (some files) s e = inr (
      record_download-local remote_path local_path recovered (with_files p files s)
      ∙ rename-to (part_path local_path) local_path s.files files e)
  renamed-local remote_path local_path recovered none s e =
      inl (remove-other (part_path local_path) local_path s.files (part-other local_path))

  fetched-local :
      (remote_path local_path : Text) (timeout_ms started : ℕ) (recovered : Bool)
      (failure : Option Text) (s : Session Device)
      → (let after =
            (fetched p remote_path local_path timeout_ms started recovered failure
                s).1.files.contents
              local_path in
          (after ≡ s.files.contents local_path)
          ⊎ ((failure ≡ none) × (after ≡ s.files.contents (part_path local_path))))
  unfolding fetched download_failed fail fail_task reset_task
  fetched-local remote_path local_path timeout_ms started recovered (some m) s =
      inl (remove-other (part_path local_path) local_path s.files (part-other local_path))
  fetched-local remote_path local_path timeout_ms started recovered none s =
      elim (renamed-local remote_path local_path recovered
        (rename (part_path local_path) local_path s.files) s refl) [
          | inl h ↦ inl h
          | inr h ↦ inr (refl, h)
        ]

  -- What the SDK answers, and the files behind it.
  unfoldable pub fetch : Text → Text → Session Device → Option Text × Device × FileSystem
  fetch remote_path local_path s =
      download_media remote_path (part_path local_path)
        (pos (download_timeout_ms s.controller.options.timeout_ms remote_path)) s.device
        (remove (part_path local_path) s.files)

  -- With an SDK that writes only its target, the file at the local path holds what it held before, or
  -- the SDK has succeeded and the file holds all that it wrote.
  pub finalize_single_download_atomic :
      (confined : WritesOnlyTarget) (remote_path local_path : Text) (s : Session Device)
      → (let after =
            (finalize_single_download p remote_path local_path s).1.files.contents local_path in
          let (failure, device, files) = fetch remote_path local_path s in
          (after ≡ s.files.contents local_path)
          ⊎ ((failure ≡ none) × (after ≡ files.contents (part_path local_path))))
  unfolding finalize_single_download fetch
  finalize_single_download_atomic confined remote_path local_path s =
      let (failure, device, files) = fetch remote_path local_path s in
      let kept : files.contents local_path ≡ s.files.contents local_path =
        confined remote_path (part_path local_path) _ s.device
          (remove (part_path local_path) s.files) local_path (part-other local_path)
        ∙ remove-other (part_path local_path) local_path s.files (part-other local_path) in
      elim (fetched-local remote_path local_path
        (download_timeout_ms s.controller.options.timeout_ms remote_path) (p.clock s.device) _
        failure (record s { device = device; files = files })) [
          | inl h ↦ inl (h ∙ kept)
          | inr h ↦ inr h
        ]

  -- What a download that succeeds leaves behind.
  unfoldable pub IsDownloaded : Text → Option Text → Session Device → Session Device → Type 0
  IsDownloaded local_path content before after =
      (after.files.contents local_path ≡ content)
      × (is_some (after.files.contents (local_path ++ codes ".json")) ≡ true)
      × (after.controller.snapshot.outputs ≡ before.controller.snapshot.outputs ++ local_path ∷ [])

  write_metadata_file-written :
      (remote_path local_path : Text) (recovered : Bool) (s : Session Device)
      → (write_metadata_file p local_path remote_path recovered s).0 ≡ none
      → is_some (
          (write_metadata_file p local_path remote_path recovered s).1.files.contents
            (local_path ++ codes ".json"))
        ≡ true
  unfolding write_metadata_file
  write_metadata_file-written remote_path local_path recovered s h =
      ap is_some (write_text_file-written (local_path ++ codes ".json") _ s h)

  write_metadata_file-outputs :
      (remote_path local_path : Text) (recovered : Bool) (s : Session Device)
      → (write_metadata_file p local_path remote_path recovered s).1.controller.snapshot.outputs
        ≡ s.controller.snapshot.outputs
  unfolding write_metadata_file
  write_metadata_file-outputs remote_path local_path recovered s =
      ap (λ c. c.snapshot.outputs) (write_text_file-controller p _ _ s)

  record_download-IsDownloaded :
      (remote_path local_path : Text) (recovered : Bool) (s : Session Device)
      → (record_download p remote_path local_path recovered s).0 ≡ true
      → IsDownloaded local_path
          (s.files.contents local_path)
          s
          (record_download p remote_path local_path recovered s).1
  unfolding IsDownloaded record_download
  record_download-IsDownloaded remote_path local_path recovered s h = ground (
    arith,
    write_metadata_file-written remote_path local_path recovered s,
    write_metadata_file-outputs remote_path local_path recovered s,
    write_metadata_file-other remote_path local_path local_path recovered s (json-other local_path),
  )

  renamed-IsDownloaded :
      (remote_path local_path : Text) (recovered : Bool) (o : Option FileSystem)
      (s : Session Device)
      → rename (part_path local_path) local_path s.files ≡ o
      → (renamed p remote_path local_path recovered o s).0 ≡ true
      → IsDownloaded local_path
          (s.files.contents (part_path local_path))
          s
          (renamed p remote_path local_path recovered o s).1
  unfolding IsDownloaded renamed
  renamed-IsDownloaded remote_path local_path recovered (some files) s e h =
      let (content, metadata, outputs) =
        record_download-IsDownloaded remote_path local_path recovered (with_files p files s) h in
      (content ∙ rename-to (part_path local_path) local_path s.files files e, metadata, outputs)
  renamed-IsDownloaded remote_path local_path recovered none s e h = ground arith

  fetched-IsDownloaded :
      (remote_path local_path : Text) (timeout_ms started : ℕ) (recovered : Bool)
      (failure : Option Text) (s : Session Device)
      → (fetched p remote_path local_path timeout_ms started recovered failure s).0 ≡ true
      → (failure ≡ none)
        × IsDownloaded local_path
            (s.files.contents (part_path local_path))
            s
            (fetched p remote_path local_path timeout_ms started recovered failure s).1
  unfolding fetched
  fetched-IsDownloaded remote_path local_path timeout_ms started recovered (some m) s h =
      ground arith
  fetched-IsDownloaded remote_path local_path timeout_ms started recovered none s h =
      (refl, renamed-IsDownloaded remote_path local_path recovered _ s refl h)

  -- A download that reports success had one from the SDK; the file at the local path holds what the
  -- SDK wrote, the metadata file is there, and the path is the last of the outputs.
  pub finalize_single_download-IsDownloaded :
      (remote_path local_path : Text) (s : Session Device)
      → (finalize_single_download p remote_path local_path s).0 ≡ true
      → (let (failure, device, files) = fetch remote_path local_path s in
          (failure ≡ none)
          × IsDownloaded local_path
              (files.contents (part_path local_path))
              s
              (finalize_single_download p remote_path local_path s).1)
  unfolding finalize_single_download fetch IsDownloaded
  finalize_single_download-IsDownloaded remote_path local_path s h =
      let (failure, device, files) = fetch remote_path local_path s in
      fetched-IsDownloaded remote_path local_path
        (download_timeout_ms s.controller.options.timeout_ms remote_path) (p.clock s.device) _
        failure (record s { device = device; files = files }) h
