-- ===== src/Download/Tests.antt =====
-- Short downloads of `/r/f` from `web` to `out`.
use mathlib.Core.List.{flatten}
use cross_host_ops.Base.{
  ◌≡◌, refl, Bool, true, false, List, [], ◌∷◌, ◌++◌, some, arith, Text, codes, lookup,
}
use cross_host_ops.Download.{
  DownloadSidecar, Store, resume_ctx, begin_file, file_data, end_file, begin_directory,
  is_directory, not_published, ended, broken, failing, download, read_download_sidecar,
}
use cross_host_ops.Download.Resume.{data_frames}
use cross_host_ops.Download.Publish.{download_resumed, download_truncated}

abbrev no_dir : Text → Bool
no_dir path = false

abbrev fresh : Store
fresh = record { files = []; sidecars = [] }

abbrev sidecar : DownloadSidecar
sidecar = record {
  target = codes "web";
  remote_path = codes "/r/f";
  relative_path = codes "f";
  offset = 2;
  size = 5;
  mtime = 7;
}

-- Two bytes are kept from a run before.
abbrev partly : Store
partly = record {
  files = (codes "out.part", codes "he") ∷ [];
  sidecars = (codes "out.part.meta", sidecar) ∷ [];
}

abbrev later : List Text
later = codes "l" ∷ codes "lo" ∷ []

download_resumed_example :
    lookup
      (codes "out")
      (let st' =
          (download no_dir
            (codes "out")
            (codes "web")
            (codes "/r/f")
            (codes "f")
            (begin_file (codes "f") 5 7 0 ∷ data_frames (codes "he" ∷ []))
            broken
            fresh).0 in
        download no_dir
          (codes "out")
          (codes "web")
          (codes "/r/f")
          (codes "f")
          (begin_file
              (codes "f")
              5
              7
              (resume_ctx (codes "out") (codes "web") (codes "/r/f") st').expected_offset
            ∷ (data_frames later ++ (end_file ∷ [])))
          ended
          st').0.files
    ≡ some (codes "hello")
unfolding flatten
download_resumed_example =
    (download_resumed no_dir (codes "out") (codes "web") (codes "/r/f") (codes "f") (codes "f") 5 7
      (codes "he" ∷ []) later fresh refl (omega arith)).1

-- Three bytes of five.
download_truncated_example :
    lookup
      (codes "out")
      (download no_dir
        (codes "out")
        (codes "web")
        (codes "/r/f")
        (codes "f")
        (begin_file (codes "f") 5 7 0 ∷ data_frames later)
        ended
        fresh).0.files
    ≡ some (codes "llo")
unfolding flatten
download_truncated_example =
    (download_truncated no_dir (codes "out") (codes "web") (codes "/r/f") (codes "f") (codes "f") 5
      7 later fresh refl).1

-- A write that fails behind one of its two bytes leaves a partial file that does not fit the offset,
-- so the next run starts afresh.
short_write_is_not_resumed :
    (resume_ctx
      (codes "out")
      (codes "web")
      (codes "/r/f")
      (download no_dir
        (codes "out")
        (codes "web")
        (codes "/r/f")
        (codes "f")
        (begin_file (codes "f") 5 7 0 ∷ file_data (codes "hel") ∷ [])
        (failing (file_data (codes "lo")) 1)
        fresh).0).expected_offset
    ≡ 0
unfolding download resume_ctx read_download_sidecar
short_write_is_not_resumed = refl

directories_are_refused :
    download no_dir
      (codes "out")
      (codes "web")
      (codes "/r/f")
      (codes "f")
      (begin_directory ∷ [])
      ended
      fresh
    ≡ (fresh, some is_directory)
unfolding download
directories_are_refused = refl

-- The destination is a directory: all is received, and the rename over it fails.
directory_is_not_replaced :
    (download
      (λ path. true)
      (codes "out")
      (codes "web")
      (codes "/r/f")
      (codes "f")
      (begin_file (codes "f") 3 7 0 ∷ data_frames later ++ (end_file ∷ []))
      ended
      fresh).1
    ≡ some not_published
unfolding download resume_ctx read_download_sidecar
directory_is_not_replaced = refl
