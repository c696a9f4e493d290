-- ===== src/ShellCopy/Stalled.antt =====
-- A download that stalls and is tried again on a new shell, from the first command to the file of
-- the client.
use mathlib.Core.List.{flatten}
use cross_host_ops.Base.{
  length-append, ℕ, ◌+◌, ◌≤◌, ◌<◌, ◌≡◌, ◌≢◌, refl, sym, ap, subst, ◌∙◌, Bool, true, List, [], ◌++◌,
  ◌∷◌, append_assoc, map, Option, some, arith, length, ok, err, Text, lookup,
}
use cross_host_ops.Download.{
  resume_ctx, offset_mismatch, Store, CopyFrame, begin_file, end_file, end_of_stream, ended, End,
  download_plain,
}
use cross_host_ops.Download
use cross_host_ops.Download.Publish.{download_restarted}
use cross_host_ops.Download.Resume.{Starts, Kept, data_frames}
use cross_host_ops.Download.Plain.{
  file_frames, closing, Holds, download_plain-Holds, download_plain-restarted,
}
use cross_host_ops.ShellCopy.{
  from_entries, into_entries, ShellError, shell_failed, PtyShell, is_stall_class, Frame, file_frame,
  start_offset,
}
use cross_host_ops.ShellCopy.Copy.{CopySpec, CopyRun, after_first, last_run, copy}
use cross_host_ops.ShellCopy.Attempt.{
  Offers, Reads, Restored, sent_name, ledger_after, StartsAt, download-stalled, download-done,
  next-StartsAt, map-file_frames,
}

copy-stalled :
    (spec : CopySpec) (size mtime : ℕ) (s0 s1 : PtyShell) (n : ℕ) (first later : List Text)
    (e : ShellError)
    → is_stall_class (shell_failed e) ≡ true
    → 0 < n + length (flatten first)
    → n + length (flatten first) ≤ size
    → StartsAt spec size mtime n
    → Offers spec.remote_path size mtime s0
    → Reads spec.remote_path size n first (err e) s0
    → Offers spec.remote_path size mtime s1
    → Reads spec.remote_path size (n + length (flatten first)) later (ok 0) s1
    → Restored s1
    → copy (some s0) (some s1) spec ≡ record {
      frames = map file_frame (
          file_frames
            (sent_name spec)
            size
            mtime
            n
            first
            (file_frames (sent_name spec) size mtime (n + length (flatten first)) later closing));
      outcome = ok tt;
    }
unfolding copy
copy-stalled spec size mtime s0 s1 n first later e stall p b s o0 r0 o1 r1 d1 =
    let spec' = record spec { resume = into_entries (ledger_after spec size mtime n first) } in
    let sent = map file_frame (file_frames (sent_name spec) size mtime n first []) in
    let m = n + length (flatten first) in
    let s' = next-StartsAt spec size mtime n first p b in
    ap (after_first (some s1) spec) (download-stalled spec size mtime s0 n first e o0 s r0)
    ∙ rw stall (ap (last_run sent) (download-done spec' size mtime s1 m later o1 s' r1 d1))
    ∙ ap (λ (fs : List Frame). let r : CopyRun = record { frames = fs; outcome = ok tt } in r)
        (map-file_frames spec size mtime n m first later)

copy-done :
    (spec : CopySpec) (size mtime : ℕ) (s0 : PtyShell) (second : Option PtyShell) (n : ℕ)
    (chunks : List Text)
    → StartsAt spec size mtime n
    → Offers spec.remote_path size mtime s0
    → Reads spec.remote_path size n chunks (ok 0) s0
    → Restored s0
    → copy (some s0) second spec ≡ record {
      frames = map file_frame (file_frames (sent_name spec) size mtime n chunks closing);
      outcome = ok tt;
    }
unfolding copy
copy-done spec size mtime s0 second n chunks s o r d =
    ap (after_first second spec) (download-done spec size mtime s0 n chunks o s r d)

-- What the client of a run without `--resume` has in the end, if all frames are about one file.
abbrev pub Receives : (Text → Bool) → Text → CopySpec → Text → Store → CopyRun → Type 0
Receives is_dir dest spec bytes st run =
    (run.outcome ≡ ok tt)
    × (fs : List CopyFrame) × (run.frames ≡ map file_frame fs)
    × Holds is_dir dest spec.source_name (sent_name spec) bytes
        (download_plain is_dir dest spec.source_name fs ended st)

-- Without `--resume`, and with no stall: if the shell has a file of that size and time, reads it to
-- the end and is restored, the copy succeeds and the client's file is what was read.
pub copy_Receives :
    (is_dir : Text → Bool) (dest : Text) (st : Store) (spec : CopySpec) (size mtime : ℕ)
    (shell : PtyShell) (second : Option PtyShell) (chunks : List Text)
    → spec.resume ≡ []
    → Offers spec.remote_path size mtime shell
    → Reads spec.remote_path size 0 chunks (ok 0) shell
    → Restored shell
    → Receives is_dir dest spec (flatten chunks) st (copy (some shell) second spec)
unfolding from_entries
copy_Receives is_dir dest st spec size mtime shell second chunks e o r d =
    let s : StartsAt spec size mtime 0 =
      ap (λ es. start_offset size mtime (lookup (sent_name spec) (from_entries es))) e in
    subst (Receives is_dir dest spec (flatten chunks) st)
      (sym (copy-done spec size mtime shell second 0 chunks s o r d))
      (
        refl,
        file_frames (sent_name spec) size mtime 0 chunks closing,
        refl,
        download_plain-Holds is_dir dest spec.source_name (sent_name spec) size mtime 0 chunks st,
      )

-- Without `--resume`, when the first shell stalls behind some of the data and the second reads the
-- rest from there: the copy succeeds, and the client's file is the rest alone; what the first shell
-- sent is lost.
pub copy_stalled_loses :
    (is_dir : Text → Bool) (dest : Text) (st : Store) (spec : CopySpec) (size mtime : ℕ)
    (s0 s1 : PtyShell) (first later : List Text) (e : ShellError)
    → spec.resume ≡ []
    → is_stall_class (shell_failed e) ≡ true
    → 0 < length (flatten first)
    → length (flatten first) ≤ size
    → Offers spec.remote_path size mtime s0
    → Reads spec.remote_path size 0 first (err e) s0
    → Offers spec.remote_path size mtime s1
    → Reads spec.remote_path size (length (flatten first)) later (ok 0) s1
    → Restored s1
    → Receives is_dir dest spec (flatten later) st (copy (some s0) (some s1) spec)
unfolding from_entries
copy_stalled_loses is_dir dest st spec size mtime s0 s1 first later e none_given stall p b o0 r0 o1
      r1 d1 =
    let s : StartsAt spec size mtime 0 =
      ap (λ es. start_offset size mtime (lookup (sent_name spec) (from_entries es))) none_given in
    let zero : 0 + length (flatten first) ≡ length (flatten first) = omega arith in
    let r1' = subst (λ m. Reads spec.remote_path size m later (ok 0) s1) (sym zero) r1 in
    subst (Receives is_dir dest spec (flatten later) st)
      (sym (
        copy-stalled spec size mtime s0 s1 0 first later e stall (omega arith) (omega arith) s o0 r0
          o1 r1' d1))
      (
        refl,
        _,
        refl,
        download_plain-restarted is_dir dest spec.source_name (sent_name spec) size mtime 0
            (0 + length (flatten first)) first later st,
      )

-- With `--resume`, and a start that fits what the client has, when the first shell stalls behind some
-- of the data and the second could read the rest from there: the daemon begins the file again, and
-- at that frame, whatever comes behind it, the client, unless it had found that very offset, ends
-- with a mismatch. Its partial file then holds what the first shell sent, and its next run finds the
-- length of that as its offset.
pub copy_stalled_refused :
    (is_dir : Text → Bool) (dest target : Text) (st : Store) (spec : CopySpec) (size mtime : ℕ)
    (s0 s1 : PtyShell) (n : ℕ) (bytes : Text) (first later : List Text) (e : ShellError)
    → StartsAt spec size mtime n
    → Starts (resume_ctx dest target spec.remote_path st) st n bytes
    → is_stall_class (shell_failed e) ≡ true
    → 0 < length (flatten first)
    → n + length (flatten first) ≤ size
    → n + length (flatten first) ≢ (resume_ctx dest target spec.remote_path st).expected_offset
    → Offers spec.remote_path size mtime s0
    → Reads spec.remote_path size n first (err e) s0
    → Offers spec.remote_path size mtime s1
    → Reads spec.remote_path size (n + length (flatten first)) later (ok 0) s1
    → Restored s1
    → (fs : List CopyFrame) × (rest : List CopyFrame) × ((copy (some s0) (some s1) spec).frames
        ≡ map file_frame (fs ++ rest))
      × ((more : List CopyFrame) (end : End)
          → Kept offset_mismatch dest target spec.remote_path (bytes ++ flatten first) (
              Download.download is_dir dest target spec.remote_path spec.source_name
                (fs ++ more)
                end
                st))
copy_stalled_refused is_dir dest target st spec size mtime s0 s1 n bytes first later e s c stall p b
      other o0 r0 o1 r1 d1 =
    let name = sent_name spec in
    let again = n + length (flatten first) in
    let start = begin_file name size mtime n in
    let restart = begin_file name size mtime again in
    let run =
      copy-stalled spec size mtime s0 s1 n first later e stall (omega arith) b s o0 r0 o1 r1 d1 in
    let long : 0 < length (bytes ++ flatten first) =
      omega (arith, length-append bytes (flatten first)) in
    let grouped = λ (more : List CopyFrame).
      ap (λ (fs : List CopyFrame). start ∷ fs)
        (append_assoc (data_frames first) (restart ∷ []) more) in
    let rest = data_frames later ++ closing in
    (
      start ∷ (data_frames first ++ (restart ∷ [])),
      rest,
      ap (λ r. r.frames) run ∙ ap (map file_frame) (sym (grouped rest)),
      λ more end.
          subst
            (λ fs.
              Kept offset_mismatch dest target spec.remote_path (bytes ++ flatten first)
                (Download.download is_dir dest target spec.remote_path spec.source_name fs end st))
            (sym (grouped more))
            (download_restarted is_dir dest target spec.remote_path spec.source_name name bytes size
              mtime n again first more end st c long (omega arith) other),
    )
