-- ===== src/Download.antt =====
-- The download of one file in src/cli/copy.rs: `CopyDownloadWriter` for a transfer that is not
-- recursive, `read_download_sidecar`, and the part of `run_copy` that drives them.
--
-- A path is a text. `Store` holds the files that are written here: the bytes of a file by its path,
-- and the sidecars by theirs, since serde_json reads back what it wrote. A directory is what the
-- argument `is_dir` says, and making directories, permissions, the progress display and symbolic
-- links are left out. A write may fail behind some of its bytes (`short_write`); the other calls on
-- files succeed, except the rename of a file that is not there or over a directory. Counters are numbers without a
-- wrap.
pub mod Resume
pub mod Publish
pub mod Plain
mod Tests
use cross_host_ops.Base.{
  ℕ, zero, suc, ◌+◌, Bool, true, false, not, ◌||◌, ◌&&◌, List, [], ◌∷◌, ◌++◌, Option, none, some,
  length, take, ltb, ◌==◌, if◌then◌else◌, Result, ok, err, Text, codes, text_eq, Dict, lookup,
  insert, remove,
}
use cross_host_ops.Filepath.{slash, copy_entry_name}

pub record DownloadSidecar : Type 0 where
  pub target : Text
  pub remote_path : Text
  pub relative_path : Text
  pub offset : ℕ
  pub size : ℕ
  pub mtime : ℕ

pub record Store : Type 0 where
  pub files : Dict Text
  pub sidecars : Dict DownloadSidecar

abbrev pub part_path : Text → Text
part_path dest = dest ++ codes ".part"

abbrev pub meta_path : Text → Text
meta_path dest = part_path dest ++ codes ".meta"

abbrev pub matches : Text → Text → DownloadSidecar → Bool
matches target remote_path s =
    not
      (not (text_eq s.target target) || (not (text_eq s.remote_path remote_path) || s.offset == 0))

abbrev pub whole : DownloadSidecar → Option Text → Option DownloadSidecar
whole s none = none
whole s (some part) = if length part == s.offset then some s else none

abbrev pub checked : Text → Text → Option Text → Option DownloadSidecar → Option DownloadSidecar
checked target remote_path part none = none
checked target remote_path part (some s) =
    if matches target remote_path s then whole s part else none

unfoldable pub read_download_sidecar : Text → Text → Text → Store → Option DownloadSidecar
read_download_sidecar dest target remote_path st =
    checked target remote_path (lookup (part_path dest) st.files)
      (lookup (meta_path dest) st.sidecars)

pub record DownloadResumeCtx : Type 0 where
  pub part : Text
  pub meta : Text
  pub expected_offset : ℕ
  pub target : Text
  pub remote_path : Text

abbrev pub offset_of : Option DownloadSidecar → ℕ
offset_of none = 0
offset_of (some s) = s.offset

unfoldable pub resume_ctx : Text → Text → Text → Store → DownloadResumeCtx
resume_ctx dest target remote_path st = record {
  part = part_path dest;
  meta = meta_path dest;
  expected_offset = offset_of (read_download_sidecar dest target remote_path st);
  target = target;
  remote_path = remote_path;
}

pub record Writer : Type 0 where
  pub dest : Text
  pub source_name : Text
  pub current_file : Option Text
  pub incomplete_path : Option Text
  pub resume : Option DownloadResumeCtx
  pub applied : ℕ
  pub current_size : ℕ
  pub current_mtime : ℕ
  pub current_relative_path : Text

pub new : Text → Text → Option DownloadResumeCtx → Writer
new dest source_name resume = record {
  dest = dest;
  source_name = source_name;
  current_file = none;
  incomplete_path = none;
  resume = resume;
  applied = 0;
  current_size = 0;
  current_mtime = 0;
  current_relative_path = [];
}

pub data CopyFrame : Type 0 where
  begin_file : Text → ℕ → ℕ → ℕ → CopyFrame
  file_data : Text → CopyFrame
  end_file begin_directory end_of_stream : CopyFrame

pub data Error : Type 0 where
  offset_mismatch data_before_begin is_directory write_failed not_published : Error
  stream_failed : Error

abbrev pub content : Option Text → Text
content none = []
content (some bytes) = bytes

-- A file that was opened to append keeps its bytes, and a file that was created has none.
abbrev pub write : Text → Text → Store → Store
write path bytes st = record st { files = insert path bytes st.files }

abbrev pub append_to : Text → Text → Store → Store
append_to path bytes st = write path (content (lookup path st.files) ++ bytes) st

abbrev pub destination_for_single_entry : (Text → Bool) → Writer → Text → Text
destination_for_single_entry is_dir w relative_path =
    if is_dir w.dest
    then w.dest ++ (slash ∷ copy_entry_name relative_path w.source_name (codes "download"))
    else w.dest

abbrev pub begun : Text → Text → ℕ → ℕ → ℕ → Writer → Writer
begun path relative_path size mtime baseline w = record w {
  applied = baseline;
  current_size = size;
  current_mtime = mtime;
  current_relative_path = relative_path;
  current_file = some path;
  incomplete_path = some path;
}

pub begin :
    (Text → Bool)
    → Option DownloadResumeCtx
    → Text
    → ℕ
    → ℕ
    → ℕ
    → Writer
    → Store
    → Result Error (Writer × Store)
begin is_dir (some ctx) relative_path size mtime start_offset w st =
    if ltb 0 start_offset
    then (if start_offset == ctx.expected_offset
        then ok (begun ctx.part relative_path size mtime start_offset w, append_to ctx.part [] st)
        else err offset_mismatch)
    else ok (begun ctx.part relative_path size mtime start_offset w, write ctx.part [] st)
begin is_dir none relative_path size mtime start_offset w st =
    let path = destination_for_single_entry is_dir w relative_path in
    ok (begun path relative_path size mtime 0 w, write path [] st)

pub add_data : Option Text → Text → Writer → Store → Result Error (Writer × Store)
add_data none bytes w st = err data_before_begin
add_data (some path) bytes w st =
    ok (record w { applied = w.applied + length bytes }, append_to path bytes st)

-- After an error the writer and the store are as before.
pub apply : (Text → Bool) → CopyFrame → Writer → Store → Result Error (Writer × Store)
unfolding begin add_data
apply is_dir (begin_file relative_path size mtime start_offset) w st =
    begin is_dir w.resume relative_path size mtime start_offset w st
apply is_dir (file_data bytes) w st = add_data w.current_file bytes w st
apply is_dir end_file w st = ok (record w { current_file = none; incomplete_path = none }, st)
apply is_dir begin_directory w st = err is_directory
apply is_dir end_of_stream w st = ok (record w { current_file = none }, st)

-- What `write_all` leaves when it fails behind `n` bytes.
abbrev pub short_write : ℕ → CopyFrame → Writer → Store → Store
short_write n (file_data bytes) w st = elim w.current_file [
  | none ↦ st
  | some path ↦ append_to path (take n bytes) st
]
short_write n _ w st = st

-- How the stream ends behind the frames: complete or cut off in silence, with an error, or with a
-- last frame whose write fails.
pub data End : Type 0 where
  ended broken : End
  failing : CopyFrame → ℕ → End

pub at_end : (Text → Bool) → End → Writer → Store → (Writer × Store) × Option Error
unfolding apply
at_end is_dir ended w st = ((w, st), none)
at_end is_dir broken w st = ((w, st), some stream_failed)
at_end is_dir (failing frame n) w st = ((w, short_write n frame w st), some write_failed)

pub apply_all :
    (Text → Bool) → List CopyFrame → End → Writer → Store → (Writer × Store) × Option Error
unfolding apply at_end
apply_all is_dir [] end w st = at_end is_dir end w st
apply_all is_dir (frame ∷ frames) end w st = elim (apply is_dir frame w st) [
  | err e ↦ ((w, st), some e)
  | ok (w', st') ↦ apply_all is_dir frames end w' st'
]

abbrev pub sidecar_of : DownloadResumeCtx → Writer → DownloadSidecar
sidecar_of ctx w = record {
  target = ctx.target;
  remote_path = ctx.remote_path;
  relative_path = w.current_relative_path;
  offset = w.applied;
  size = w.current_size;
  mtime = w.current_mtime;
}

pub cleanup_incomplete : Option Text → Store → Store
cleanup_incomplete none st = st
cleanup_incomplete (some path) st = record st { files = remove path st.files }

pub handle_failure : Option DownloadResumeCtx → Writer → Store → Store
unfolding cleanup_incomplete
handle_failure none w st = cleanup_incomplete w.incomplete_path st
handle_failure (some ctx) w st =
    if ltb 0 w.applied
    then record st { sidecars = insert ctx.meta (sidecar_of ctx w) st.sidecars }
    else st

-- `rename` replaces a destination that is a file, and fails where it is a directory.
pub publish : (Text → Bool) → Option DownloadResumeCtx → Writer → Store → Store × Option Error
publish is_dir none w st = (st, none)
publish is_dir (some ctx) w st = elim (lookup ctx.part st.files) [
  | none ↦ (st, some not_published)
  | some bytes ↦ if is_dir w.dest then (st, some not_published) else (
    record {
      files = insert w.dest bytes (remove ctx.part st.files);
      sidecars = remove ctx.meta st.sidecars;
    },
    none,
  )
]

abbrev pub settle : (Text → Bool) → (Writer × Store) × Option Error → Store × Option Error
settle is_dir ((w, st), none) = publish is_dir w.resume w st
settle is_dir ((w, st), some e) = (handle_failure w.resume w st, some e)

-- A run of `copy --resume` for a file.
pub download :
    (Text → Bool) → Text → Text → Text → Text → List CopyFrame → End → Store → Store × Option Error
unfolding new resume_ctx apply_all publish handle_failure
download is_dir dest target remote_path source_name frames end st =
    let w = new dest source_name (some (resume_ctx dest target remote_path st)) in
    settle is_dir (apply_all is_dir frames end w st)

-- A run without `--resume`.
pub download_plain :
    (Text → Bool) → Text → Text → List CopyFrame → End → Store → Store × Option Error
unfolding new apply_all publish handle_failure
download_plain is_dir dest source_name frames end st =
    settle is_dir (apply_all is_dir frames end (new dest source_name none) st)
