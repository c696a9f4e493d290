-- ===== src/Download/Publish.antt =====
-- Whole runs of a resumed download: complete, cut off, resumed, refused, and cut off in silence.
use mathlib.Core.List.{flatten}
use cross_host_ops.Base.{
  ℕ, ◌<◌, ◌≡◌, refl, sym, ap, ◌∙◌, ◌≢◌, inl, inr, Bool, true, false, List, [], ◌∷◌, ◌++◌,
  append-nil, none, some, arith, length, ltb, ◌==◌, Text, err,
}
use cross_host_ops.Download.{
  stream_failed, Store, DownloadResumeCtx, Writer, resume_ctx, new, CopyFrame, begin_file, end_file,
  offset_mismatch, begin, apply, End, ended, broken, at_end, apply_all, handle_failure, download,
}
use cross_host_ops.Download.Resume.{
  data_frames, Starts, apply_all-begin_file, Published, settle-Published, Kept, settle-Kept,
}

begin_mismatch :
    (is_dir : Text → Bool) (ctx : DownloadResumeCtx) (relative_path : Text)
    (size mtime start_offset : ℕ) (w : Writer) (st : Store)
    → 0 < start_offset
    → start_offset ≢ ctx.expected_offset
    → begin is_dir (some ctx) relative_path size mtime start_offset w st ≡ err offset_mismatch
unfolding begin
begin_mismatch is_dir ctx relative_path size mtime start_offset w st p other =
    let above : ltb 0 start_offset ≡ true = ground arith in
    let apart : (start_offset == ctx.expected_offset) ≡ false = ground arith in
    rw (above, apart) refl

module _ (is_dir : Text → Bool) (dest target remote_path source_name : Text) where
  -- Frames of one file from `start_offset` on, closed by `end_file`, for a destination that is not a
  -- directory: if the start fits the partial
  -- file (or asks for a fresh one), the destination is the bytes that were kept and then all that
  -- came, and the partial file and its sidecar are gone.
  download-Published :
      (relative_path bytes : Text) (size mtime start_offset : ℕ) (chunks : List Text) (st : Store)
      → is_dir dest ≡ false
      → Starts (resume_ctx dest target remote_path st) st start_offset bytes
      → Published dest (bytes ++ flatten chunks) (
          download is_dir dest target remote_path source_name
            (begin_file relative_path size mtime start_offset
              ∷ (data_frames chunks ++ (end_file ∷ [])))
            ended
            st)
  unfolding download new apply_all apply at_end resume_ctx
  download-Published relative_path bytes size mtime start_offset chunks st file s =
      let ctx = resume_ctx dest target remote_path st in
      let w = new dest source_name (some ctx) in
      let (w', st', run, h) =
        apply_all-begin_file is_dir dest ctx relative_path bytes size mtime start_offset chunks
          (end_file ∷ []) ended w st refl refl s in
      rw (run, download)
        (settle-Published is_dir dest (bytes ++ flatten chunks) ctx
          (record w' { current_file = none; incomplete_path = none }) st' file refl refl h.0 h.1
          h.3)

  -- A stream that fails behind some of the data: the partial file holds the bytes that were kept
  -- and all that came, and the next run finds their number as its offset.
  download-Kept :
      (relative_path bytes : Text) (size mtime start_offset : ℕ) (chunks : List Text) (st : Store)
      → Starts (resume_ctx dest target remote_path st) st start_offset bytes
      → 0 < length (bytes ++ flatten chunks)
      → Kept stream_failed dest target remote_path (bytes ++ flatten chunks) (
          download is_dir dest target remote_path source_name
            (begin_file relative_path size mtime start_offset ∷ data_frames chunks)
            broken
            st)
  unfolding download new apply_all at_end resume_ctx
  download-Kept relative_path bytes size mtime start_offset chunks st s n =
      let ctx = resume_ctx dest target remote_path st in
      let w = new dest source_name (some ctx) in
      let (w', st', run, h) =
        apply_all-begin_file is_dir dest ctx relative_path bytes size mtime start_offset chunks []
          broken w st refl refl s in
      let run' =
        ap
          (λ f. apply_all is_dir (begin_file relative_path size mtime start_offset ∷ f) broken w st)
          (sym (append-nil (data_frames chunks)))
        ∙ run in
      rw (run', download)
        (settle-Kept is_dir stream_failed dest target remote_path (bytes ++ flatten chunks) st w'
          st' n h)

  -- A file that is begun again at a place that does not fit the offset that the run found: the run
  -- ends with that error, the partial file holds what came before, and the next run finds its length
  -- as its offset.
  pub download_restarted :
      (relative_path bytes : Text) (size mtime start_offset again : ℕ) (first : List Text)
      (later : List CopyFrame) (end : End) (st : Store)
      → Starts (resume_ctx dest target remote_path st) st start_offset bytes
      → 0 < length (bytes ++ flatten first)
      → 0 < again
      → again ≢ (resume_ctx dest target remote_path st).expected_offset
      → Kept offset_mismatch dest target remote_path (bytes ++ flatten first) (
          download is_dir dest target remote_path source_name
            (begin_file relative_path size mtime start_offset
              ∷ (data_frames first ++ (begin_file relative_path size mtime again ∷ later)))
            end
            st)
  unfolding download new apply_all apply resume_ctx
  download_restarted relative_path bytes size mtime start_offset again first later end st s n p
        other =
      let ctx = resume_ctx dest target remote_path st in
      let w = new dest source_name (some ctx) in
      let rest = begin_file relative_path size mtime again ∷ later in
      let (w', st', run, h) =
        apply_all-begin_file is_dir dest ctx relative_path bytes size mtime start_offset first rest
          end w st refl refl s in
      let refused : begin is_dir w'.resume relative_path size mtime again w' st'
          ≡ err offset_mismatch =
        ap (λ c. begin is_dir c relative_path size mtime again w' st') h.1
        ∙ begin_mismatch is_dir ctx relative_path size mtime again w' st' p other in
      rw (run, download)
        (rw (refused, apply, apply_all)
          (settle-Kept is_dir offset_mismatch dest target remote_path (bytes ++ flatten first) st w'
            st' n h))

  -- A destination that is not a directory: behind a run that was cut off and one that goes on from
  -- there, with the offset that it finds, the destination is all that came in both.
  pub download_resumed :
      (relative_path : Text) (size mtime : ℕ) (first later : List Text) (st : Store)
      → is_dir dest ≡ false
      → 0 < length (flatten first)
      → Published dest (flatten first ++ flatten later) (
          let st' =
            (download is_dir dest target remote_path source_name
              (begin_file relative_path size mtime 0 ∷ data_frames first)
              broken
              st).0 in
          download is_dir dest target remote_path source_name
            (begin_file relative_path size mtime
                (resume_ctx dest target remote_path st').expected_offset
              ∷ (data_frames later ++ (end_file ∷ [])))
            ended
            st')
  unfolding resume_ctx
  download_resumed relative_path size mtime first later st file n =
      let (e, held, found) =
        download-Kept relative_path [] size mtime 0 first st (inl (refl, refl)) n in
      let st' =
        (download is_dir dest target remote_path source_name
          (begin_file relative_path size mtime 0 ∷ data_frames first) broken st).0 in
      download-Published relative_path (flatten first) size mtime
        (resume_ctx dest target remote_path st').expected_offset later st' file
        (inr (omega (arith, found), refl, found, held))

  -- A start that does not fit what the partial file holds is refused, and nothing is written.
  download_mismatch :
      (relative_path : Text) (size mtime start_offset : ℕ) (frames : List CopyFrame) (end : End)
      (st : Store)
      → 0 < start_offset
      → start_offset ≢ (resume_ctx dest target remote_path st).expected_offset
      → download is_dir dest target remote_path source_name
          (begin_file relative_path size mtime start_offset ∷ frames)
          end
          st
        ≡ (st, some offset_mismatch)
  unfolding download new apply_all apply handle_failure
  download_mismatch relative_path size mtime start_offset frames end st p other =
      let ctx = resume_ctx dest target remote_path st in
      let w = new dest source_name (some ctx) in
      let refused : begin is_dir (some ctx) relative_path size mtime start_offset w st
          ≡ err offset_mismatch =
        begin_mismatch is_dir ctx relative_path size mtime start_offset w st p other in
      rw (refused, download, apply_all, apply) refl

  -- A stream that ends in silence behind some of the data, whatever size was announced, for a
  -- destination that is not a directory: what came is published as the destination.
  pub download_truncated :
      (relative_path : Text) (size mtime : ℕ) (chunks : List Text) (st : Store)
      → is_dir dest ≡ false
      → Published dest (flatten chunks) (
          download is_dir dest target remote_path source_name
            (begin_file relative_path size mtime 0 ∷ data_frames chunks)
            ended
            st)
  unfolding download new apply_all at_end resume_ctx
  download_truncated relative_path size mtime chunks st file =
      let ctx = resume_ctx dest target remote_path st in
      let w = new dest source_name (some ctx) in
      let (w', st', run, h) =
        apply_all-begin_file is_dir dest ctx relative_path [] size mtime 0 chunks [] ended w st refl
          refl (inl (refl, refl)) in
      let begin_only = begin_file relative_path size mtime 0 in
      let run' =
        ap (λ f. apply_all is_dir (begin_only ∷ f) ended w st)
          (sym (append-nil (data_frames chunks)))
        ∙ run in
      rw (run', download)
        (settle-Published is_dir dest (flatten chunks) ctx w' st' file refl refl h.0 h.1 h.3)
