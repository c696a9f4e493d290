-- ===== src/Upload.antt =====
-- The resumable upload of one file, from the client to the file on the target: the acknowledgement
-- and `send_path_entry_frame_from` of src/cli/copy.rs, and `probe_upload_resume`, `upload_loop` and
-- `upload_single_file_streaming` of src/daemon/session/shell_copy.rs.
--
-- `Tools` is what runs elsewhere: the digest, the reads of a file, the base64 crate, and `base64 -d`
-- of the target. The files of the target are bytes by their path; modes and times are left out, and
-- the shell commands that move and list files do what they say. A partial file that a failed run
-- leaves may hold anything, so an error carries no state.
pub mod Decide
pub mod Whole
mod Tests
use mathlib.Core.List.{flatten}
use cross_host_ops.Base.{
  ℕ, ◌+◌, ◌-◌, ◌≤◌, ◌<◌, ◌≡◌, min, Bool, true, false, not, ◌||◌, ◌&&◌, List, [], ◌∷◌, ◌++◌, Option,
  none, some, length, take, drop, ltb, leb, ◌==◌, find, if◌then◌else◌, All, Result, ok, err, Text,
  codes, text_eq, is_empty, Dict, lookup, insert, remove,
}
use cross_host_ops.Base64.{Engine, Encoder, new_encoder, encode, finish, encode_all, wire_len_for}
use cross_host_ops.Download.{
  CopyFrame, begin_file, file_data, end_file, begin_directory, end_of_stream, content,
}

pub record Tools : Type 0 where
  pub engine : Engine
  pub sha256 : Text → Text
  pub reads : Text → List Text
  pub base64_decode : Text → Option Text
  -- Reading to the end gives the content.
  pub flatten-reads : (s : Text) → flatten (reads s) ≡ s
  -- The program reads the lines that the crate's engine encodes.
  pub base64_decode-encode_all :
      (chunks : List Text)
      → All (λ b. b < 256) (flatten chunks)
      → base64_decode (encode_all engine new_encoder chunks).1 ≡ some (flatten chunks)

pub record ResumeEntry : Type 0 where
  pub relative_path : Text
  pub offset : ℕ
  pub size : ℕ
  pub partial_sha256 : Text

abbrev pub Remote : Type 0
Remote = Dict Text

abbrev pub tmp_path : Text → Text
tmp_path dest = dest ++ codes ".xho_tmp"

pub data Error : Type 0 where
  beyond_size data_outside end_outside directory unexpected_frame stream_closed : Error
  receiver_failed receiver_waits size_mismatch wire_mismatch : Error

-- The file that `BeginFile` announced, and what was fed to the receiver since.
pub record Job : Type 0 where
  pub size : ℕ
  pub skip : ℕ
  pub encoder : Encoder
  pub total_sent : ℕ
  pub wire : Text

pub data Phase : Type 0 where
  idle : Phase
  feeding : Job → Phase

module _ (tools : Tools) where
  open tools use {engine, sha256, reads, base64_decode}

  -- Size and digest of the partial file.
  pub probe_upload_partial : Text → Remote → Option (ℕ × Text)
  probe_upload_partial dest remote = elim (lookup (tmp_path dest) remote) [
    | none ↦ none
    | some part ↦ some (length part, sha256 part)
  ]

  abbrev pub effective : ResumeEntry → Option (ℕ × Text) → ResumeEntry
  effective entry none = record entry { offset = 0; partial_sha256 = [] }
  effective entry (some (n, hash)) =
      if ltb 0 n && leb n entry.size
      then record entry { offset = n; partial_sha256 = hash }
      else record entry { offset = 0; partial_sha256 = [] }

  pub probe_upload_resume : Text → List ResumeEntry → Remote → List ResumeEntry
  unfolding probe_upload_partial
  probe_upload_resume dest [] remote = []
  probe_upload_resume dest (entry ∷ entries) remote =
      effective entry (probe_upload_partial dest remote) ∷ probe_upload_resume dest entries remote

  -- The digest of the first bytes, of as many as are asked for.
  pub prefix_sha256 : Text → ℕ → Option Text
  prefix_sha256 source upto =
      if leb upto (length source) then some (sha256 (take upto source)) else none

  abbrev pub same_hash : Option Text → Text → Bool
  same_hash none hash = false
  same_hash (some local) hash = text_eq local hash

  abbrev pub filtered : (ResumeEntry → Bool) → Option ResumeEntry → Option ResumeEntry
  filtered p none = none
  filtered p (some e) = if p e then some e else none

  abbrev pub skip_of : Text → Option ResumeEntry → ℕ
  skip_of source none = 0
  skip_of source (some e) =
      if same_hash (prefix_sha256 source e.offset) e.partial_sha256 then e.offset else 0

  -- The answer to the acknowledgement: the offset to start from.
  pub resume_skip : Text → Text → List ResumeEntry → ℕ
  unfolding prefix_sha256
  resume_skip source_name source entries = skip_of source (
      filtered (λ e. not (is_empty e.partial_sha256))
        (filtered (λ e. ltb 0 e.offset) (find (λ e. text_eq e.relative_path source_name) entries)))

  abbrev pub data_frames : List Text → List CopyFrame
  data_frames [] = end_file ∷ end_of_stream ∷ []
  data_frames (bytes ∷ chunks) = file_data bytes ∷ data_frames chunks

  -- The frames of a file from `skip` on.
  pub send_path_entry_frame_from : Text → Text → ℕ → Result Error (List CopyFrame)
  send_path_entry_frame_from source_name source skip =
      if leb skip (length source)
      then ok
          (begin_file source_name (length source) 0 skip ∷ data_frames (reads (drop skip source)))
      else err beyond_size

  abbrev pub opened : ℕ → ℕ → Job
  opened size start_offset = record {
    size = size;
    skip = min start_offset size;
    encoder = new_encoder;
    total_sent = 0;
    wire = [];
  }

  pub feed_data : Job → Text → Job
  feed_data job bytes =
      let (encoder, wire) = encode engine job.encoder bytes in
      record job {
        encoder = encoder;
        total_sent = job.total_sent + length bytes;
        wire = job.wire ++ wire;
      }

  -- `head -c <wire_len> | base64 -d`, to the end of the partial file or in its place. The receiver
  -- waits while less than `wire_len` bytes have come.
  pub receive : Job → ℕ → Text → Text → Remote → Result Error Remote
  receive job wire_len wire dest remote =
      if ltb (length wire) wire_len
      then err receiver_waits
      else elim (base64_decode (take wire_len wire)) [
        | none ↦ err receiver_failed
        | some bytes ↦
            let kept = if ltb 0 job.skip then content (lookup (tmp_path dest) remote) else [] in
            ok (insert (tmp_path dest) (kept ++ bytes) remote)
      ]

  -- `mv tmp dest`
  abbrev pub finalize_upload : Text → Remote → Remote
  finalize_upload dest remote =
      insert dest (content (lookup (tmp_path dest) remote)) (remove (tmp_path dest) remote)

  abbrev pub checked : Job → ℕ → ℕ → Text → Remote → Result Error Remote
  checked job wire_len wire_sent dest remote =
      if not (job.total_sent == job.size - job.skip)
      then err size_mismatch
      else if not (wire_sent == wire_len)
      then err wire_mismatch
      else ok (finalize_upload dest remote)

  pub end_job : Job → Text → Remote → Result Error Remote
  unfolding receive
  end_job job dest remote =
      let (encoder, tail) = finish engine job.encoder in
      let wire_len = wire_len_for (job.size - job.skip) in
      elim (receive job wire_len (job.wire ++ tail) dest remote) [
        | err e ↦ err e
        | ok remote' ↦ checked job wire_len encoder.encoded_total dest remote'
      ]

  -- The frames of a transfer that is not recursive.
  pub upload_loop : Text → Phase → List CopyFrame → Remote → Result Error Remote
  unfolding feed_data end_job
  upload_loop dest idle [] remote = ok remote
  upload_loop dest (feeding job) [] remote = err stream_closed
  upload_loop dest idle (begin_file name size mtime start_offset ∷ frames) remote =
      upload_loop dest (feeding (opened size start_offset)) frames remote
  upload_loop dest idle (file_data bytes ∷ frames) remote = err data_outside
  upload_loop dest idle (end_file ∷ frames) remote = err end_outside
  upload_loop dest idle (begin_directory ∷ frames) remote = err directory
  upload_loop dest idle (end_of_stream ∷ frames) remote = ok remote
  upload_loop dest (feeding job) (file_data bytes ∷ frames) remote =
      upload_loop dest (feeding (feed_data job bytes)) frames remote
  upload_loop dest (feeding job) (end_file ∷ frames) remote = elim (end_job job dest remote) [
    | err e ↦ err e
    | ok remote' ↦ upload_loop dest idle frames remote'
  ]
  upload_loop dest (feeding job) (begin_file name size mtime start_offset ∷ frames) remote =
      err unexpected_frame
  upload_loop dest (feeding job) (begin_directory ∷ frames) remote = err unexpected_frame
  upload_loop dest (feeding job) (end_of_stream ∷ frames) remote = err unexpected_frame

  -- A run of `copy --resume` that uploads.
  pub upload : Text → Text → Text → Remote → Result Error Remote
  unfolding probe_upload_resume resume_skip send_path_entry_frame_from upload_loop
  upload source_name source dest remote =
      let entry : ResumeEntry = record {
        relative_path = source_name;
        offset = 0;
        size = length source;
        partial_sha256 = [];
      } in
      let ack = probe_upload_resume dest (entry ∷ []) remote in
      elim (send_path_entry_frame_from source_name source (resume_skip source_name source ack)) [
        | err e ↦ err e
        | ok frames ↦ upload_loop dest idle frames remote
      ]
