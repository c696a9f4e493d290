-- ===== src/Upload/Whole.antt =====
-- A whole upload: whatever a run before has left, the target gets the source.
use mathlib.Core.List.{flatten}
use cross_host_ops.Base.{
  ℕ, ◌+◌, ◌-◌, ◌≤◌, ◌<◌, ◌≡◌, refl, sym, ap, ap₂, ◌∙◌, subst, inl, inr, true, false, List, [], ◌∷◌,
  ◌++◌, append_assoc, none, some, arith, length, take, drop, min, ltb, leb, ◌==◌, if◌then◌else◌,
  All, All-drop, Result, ok, err, Text, codes, lookup, insert, remove, lookup-insert, length-append,
  length-drop, take-append-drop,
}
use cross_host_ops.Base64.{finish, encode_all, wire_len_for}
use cross_host_ops.Base64.Wire.{length-encode_all}
use cross_host_ops.Sentinel.Stream.{take_all}
use cross_host_ops.Download.{begin_file, content}
use cross_host_ops.Download.Resume.{lookup-insert_same, lookup-remove_same, text_eq-append}
use cross_host_ops.Upload.{
  Tools, Remote, tmp_path, Error, Job, feeding, data_frames, opened, feed_data, receive,
  finalize_upload, checked, end_job, upload_loop, upload, send_path_entry_frame_from,
}
use cross_host_ops.Upload.Decide.{chosen, chosen-IsSound, IsSound, IsDistinguished}

module _ (tools : Tools) where
  -- The job after all its data.
  fed : Job → List Text → Job
  fed job [] = job
  fed job (bytes ∷ chunks) = fed (feed_data tools job bytes) chunks

  same_result : (r : Result Error Remote) → (elim r [ err e ↦ err e | ok x ↦ ok x ]) ≡ r
  same_result (ok x) = refl
  same_result (err e) = refl

  upload_loop-data_frames :
      (dest : Text) (job : Job) (chunks : List Text) (remote : Remote)
      → upload_loop tools dest (feeding job) (data_frames tools chunks) remote
        ≡ end_job tools (fed job chunks) dest remote
  unfolding upload_loop fed
  upload_loop-data_frames dest job [] remote = same_result (end_job tools job dest remote)
  upload_loop-data_frames dest job (bytes ∷ chunks) remote =
      upload_loop-data_frames dest (feed_data tools job bytes) chunks remote

  -- What was encoded, with the tail, is what `encode_all` gives.
  abbrev Fed : Job → List Text → Job → Type 0
  Fed job chunks job' =
      (job'.wire ++ (finish tools.engine job'.encoder).1
        ≡ job.wire ++ (encode_all tools.engine job.encoder chunks).1)
      × ((finish tools.engine job'.encoder).0 ≡ (encode_all tools.engine job.encoder chunks).0)
      × (job'.total_sent ≡ job.total_sent + length (flatten chunks))
      × (job'.size ≡ job.size)
      × (job'.skip ≡ job.skip)

  fed-Fed : (job : Job) (chunks : List Text) → Fed job chunks (fed job chunks)
  unfolding fed feed_data encode_all flatten
  fed-Fed job [] = (refl, refl, omega arith, refl, refl)
  fed-Fed job (bytes ∷ chunks) =
      let (w, e, t, s, k) = fed-Fed (feed_data tools job bytes) chunks in
      (
        w ∙ append_assoc job.wire _ _,
        e,
        omega (arith, t, length-append bytes (flatten chunks)),
        s,
        k,
      )

  abbrev received : Job → Text → Text → Remote → Remote
  received job bytes dest remote =
      insert (tmp_path dest)
        ((if ltb 0 job.skip then content (lookup (tmp_path dest) remote) else []) ++ bytes) remote

  receive-ok :
      (job : Job) (n : ℕ) (wire bytes dest : Text) (remote : Remote)
      → length wire ≡ n
      → tools.base64_decode wire ≡ some bytes
      → receive tools job n wire dest remote ≡ ok (received job bytes dest remote)
  unfolding receive
  receive-ok job n wire bytes dest remote l d =
      let enough : ltb (length wire) n ≡ false = ground arith in
      let all_of_it : take n wire ≡ wire = ap (λ k. take k wire) (sym l) ∙ take_all wire in
      rw (enough, all_of_it, d) refl

  checked-ok :
      (job : Job) (n sent : ℕ) (dest : Text) (remote : Remote)
      → job.total_sent ≡ job.size - job.skip
      → sent ≡ n
      → checked tools job n sent dest remote ≡ ok (finalize_upload tools dest remote)
  checked-ok job n sent dest remote t e =
      let total : (job.total_sent == job.size - job.skip) ≡ true = ground arith in
      let wired : (sent == n) ≡ true = ground arith in rw (total, wired) refl

  end_job-ok :
      (job : Job) (dest bytes : Text) (remote : Remote)
      → length (job.wire ++ (finish tools.engine job.encoder).1)
        ≡ wire_len_for (job.size - job.skip)
      → (finish tools.engine job.encoder).0.encoded_total ≡ wire_len_for (job.size - job.skip)
      → tools.base64_decode (job.wire ++ (finish tools.engine job.encoder).1) ≡ some bytes
      → job.total_sent ≡ job.size - job.skip
      → end_job tools job dest remote
        ≡ ok (finalize_upload tools dest (received job bytes dest remote))
  unfolding end_job
  end_job-ok job dest bytes remote l n d t =
      let wire_len = wire_len_for (job.size - job.skip) in
      let wire = job.wire ++ (finish tools.engine job.encoder).1 in
      rw (receive-ok job wire_len wire bytes dest remote l d, end_job)
        (checked-ok job wire_len (finish tools.engine job.encoder).0.encoded_total dest
          (received job bytes dest remote) t n)

  -- The target's files behind `mv`.
  finalized :
      (dest bytes : Text) (remote : Remote)
      → (lookup dest (finalize_upload tools dest (insert (tmp_path dest) bytes remote))
          ≡ some bytes)
        × (lookup (tmp_path dest) (finalize_upload tools dest (insert (tmp_path dest) bytes remote))
            ≡ none)
  finalized dest bytes remote =
      let tmp = tmp_path dest in
      let moved = lookup-insert_same tmp bytes remote in
      let left = remove tmp (insert tmp bytes remote) in
      let apart = text_eq-append dest (codes ".xho_tmp") (λ e. cc) in
      (
        lookup-insert_same dest (content (lookup tmp (insert tmp bytes remote))) left
            ∙ ap (λ x. some (content x)) moved,
        lookup-insert dest tmp (content (lookup tmp (insert tmp bytes remote))) left
            ∙ rw apart (lookup-remove_same tmp (insert tmp bytes remote)),
      )

  -- The frames from `skip` on, for a file that has that many bytes.
  upload_loop-sent :
      (dest source : Text) (skip : ℕ) (remote : Remote)
      → All (λ b. b < 256) source
      → skip ≤ length source
      → upload_loop tools dest
          (feeding (opened tools (length source) skip))
          (data_frames tools (tools.reads (drop skip source)))
          remote
        ≡ ok (
            finalize_upload tools dest
              (received (opened tools (length source) skip) (drop skip source) dest remote))
  upload_loop-sent dest source skip remote small fits =
      let job = opened tools (length source) skip in
      let chunks = tools.reads (drop skip source) in
      let read = tools.flatten-reads (drop skip source) in
      let job' = fed job chunks in
      let (w, e, t, s, k) = fed-Fed job chunks in
      let total : job'.total_sent ≡ 0 + length (flatten chunks) = t in
      let small' = subst (All (λ b. b < 256)) (sym read) (All-drop _ skip source small) in
      let (wire_size, counted) = length-encode_all tools.engine chunks small' in
      let size = ap length read in
      let left : job'.size - job'.skip ≡ length (flatten chunks) =
        omega (arith, length-drop skip source) in
      let same_size : wire_len_for (length (flatten chunks))
          ≡ wire_len_for (job'.size - job'.skip) =
        ap wire_len_for (sym left) in
      let done =
        end_job-ok job' dest (flatten chunks) remote (ap length w ∙ wire_size ∙ same_size)
          (ap (λ x. x.encoded_total) e ∙ counted ∙ wire_size ∙ same_size)
          (ap tools.base64_decode w ∙ tools.base64_decode-encode_all chunks small') (omega arith) in
      let start = λ (n : ℕ) (bytes : Text). ok (
        finalize_upload tools dest (
          insert (tmp_path dest)
            ((if ltb 0 n then content (lookup (tmp_path dest) remote) else []) ++ bytes) remote)) in
      upload_loop-data_frames dest job chunks remote ∙ done ∙ ap₂ start k read

  -- What is kept and what is sent are the source.
  kept_and_sent :
      (source_name source dest : Text) (remote : Remote) (skip : ℕ)
      → IsSound tools source_name source dest remote skip
      → (skip ≤ length source)
        × ((if ltb 0 (min skip (length source))
                then content (lookup (tmp_path dest) remote)
                else [])
              ++ drop skip source
            ≡ source)
  kept_and_sent source_name source dest remote skip (inl z) =
      let none_kept : ltb 0 (min skip (length source)) ≡ false = ground arith in
      (omega arith, rw none_kept (ap (λ n. drop n source) z))
  kept_and_sent source_name source dest remote skip (inr (part, f, n, p, l, start)) =
      let some_kept : ltb 0 (min skip (length source)) ≡ true = ground arith in
      (
        omega arith,
        rw (some_kept, f)
            (ap₂ (λ a k. a ++ drop k source) (sym start) n ∙ take-append-drop (length part) source),
      )

  -- Whatever partial file a run before has left, sound or not, if its digest is not by accident that
  -- of the start of the source of its length: the upload of a file succeeds, the target has its
  -- bytes, and the partial file is gone.
  pub upload_whole :
      (source_name source dest : Text) (remote : Remote)
      → All (λ b. b < 256) source
      → IsDistinguished tools source_name source dest remote
      → (remote' : Remote) × (upload tools source_name source dest remote ≡ ok remote')
        × (lookup dest remote' ≡ some source)
        × (lookup (tmp_path dest) remote' ≡ none)
  unfolding upload send_path_entry_frame_from upload_loop
  upload_whole source_name source dest remote small distinct =
      let skip = chosen tools source_name source dest remote in
      let sound = chosen-IsSound tools source_name source dest remote distinct in
      let (fits, same) = kept_and_sent source_name source dest remote skip sound in
      let fits' : leb skip (length source) ≡ true = ground arith in
      let sent : send_path_entry_frame_from tools source_name source skip
          ≡ ok (
              begin_file source_name (length source) 0 skip
              ∷ data_frames tools (tools.reads (drop skip source))) =
        rw (fits', send_path_entry_frame_from) refl in
      let whole = ap (λ b. insert (tmp_path dest) b remote) same in
      let run = upload_loop-sent dest source skip remote small fits in
      let (there, gone) = finalized dest source remote in
      (
        finalize_upload tools dest (insert (tmp_path dest) source remote),
        rw (sent, upload) (run ∙ ap (λ r. ok (finalize_upload tools dest r)) whole),
        there,
        gone,
      )
