-- ===== src/ShellCopy/Attempt.antt =====
-- One attempt at the download of a file that the shell has.
use mathlib.Core.List.{flatten, map-append}
use cross_host_ops.Base.{
  ℕ, ◌+◌, ◌-◌, ◌≤◌, ◌<◌, ◌≡◌, refl, sym, ap, ◌∙◌, min, false, List, [], ◌∷◌, ◌++◌, map, some, arith,
  length, Result, ok, err, Text, codes, lookup, le→leb, lt→ltb, ==_refl, append-nil,
}
use cross_host_ops.Download.{CopyFrame, begin_file, end_file, end_of_stream}
use cross_host_ops.Download.Resume.{data_frames, lookup-insert_same}
use cross_host_ops.Download.Plain.{file_frames, closing}
use cross_host_ops.ShellCopy.{
  file_progress, stream_remote_file, ResumeLedger, from_entries, into_entries, entry_at, update,
  ShellError, shell_failed, PtyShell, captured, base64_read_command, kind_command, stat_command,
  contains, parse_stat, file_name, name_or, Frame, file_frame, start_offset, send_file,
  download_single_file,
}
use cross_host_ops.ShellCopy.Copy.{CopySpec, DownloadAttempt, failed, entered, completed, download}
use cross_host_ops.ShellCopy.Ledger.{
  from_entries-IsLedger, insert-IsLedger, from_entries-into_entries,
}

-- The shell has a file of that size and time at the path.
pub record Offers (remote_path : Text) (size mtime : ℕ) (shell : PtyShell) : Type 0 where
  pub kind : Text
  pub is_file : captured (shell.run_command_plain (kind_command remote_path)) ≡ ok kind
  pub no_directory : contains (codes "XHO_DIR") kind ≡ false
  pub raw : entered (shell.run_command_plain (codes "stty raw -echo")) ≡ ok tt
  pub stat : Text
  pub printed : captured (shell.run_command_raw (stat_command remote_path)) ≡ ok stat
  pub parsed : parse_stat stat ≡ (mtime, size)

-- Reading from `start` on sends the chunks and ends with `r`.
abbrev pub Reads : Text → ℕ → ℕ → List Text → Result ShellError ℕ → PtyShell → Type 0
Reads remote_path size start chunks r shell =
    shell.run_command_raw_b64 (base64_read_command remote_path start) (size - start) ≡ (chunks, r)

abbrev pub Restored : PtyShell → Type 0
Restored shell =
    (chunks : List Text) × (code : ℕ) × (shell.run_command_raw (codes "stty sane")
      ≡ (chunks, ok code))

abbrev pub sent_name : CopySpec → Text
sent_name spec = name_or spec.source_name (file_name spec.remote_path)

map-closing :
    (fs : List CopyFrame)
    → map file_frame (fs ++ end_file ∷ []) ++ file_frame end_of_stream ∷ []
      ≡ map file_frame (fs ++ closing)
map-closing [] = refl
map-closing (f ∷ fs) = ap (◌∷◌ (file_frame f)) (map-closing fs)

module _ (spec : CopySpec) (size mtime : ℕ) where
  pub send_file_lem :
      (shell : PtyShell) (chunks : List Text) (r : Result ShellError ℕ) (start' : ℕ)
      (ledger : ResumeLedger)
      → start_offset size mtime (lookup (sent_name spec) ledger) ≡ start'
      → Reads spec.remote_path size start' chunks r shell
      → send_file shell spec.remote_path (sent_name spec) size mtime ledger
        ≡ file_progress spec.remote_path (sent_name spec) size mtime start' ledger (chunks, r)
  unfolding send_file
  send_file_lem shell chunks r start' ledger s e =
      ap
        (λ n.
          file_progress spec.remote_path (sent_name spec) size mtime n ledger
            (stream_remote_file shell spec.remote_path size n))
        s
      ∙ ap (file_progress spec.remote_path (sent_name spec) size mtime start' ledger) e

  pub download-Offers :
      (shell : PtyShell)
      → Offers spec.remote_path size mtime shell
      → download shell spec
        ≡ completed spec (shell.run_command_raw (codes "stty sane")) (
            send_file shell spec.remote_path (sent_name spec) size mtime (from_entries spec.resume))
  unfolding download download_single_file
  download-Offers shell o =
      rw (o.is_file, download)
        (rw (o.raw, download)
          (rw o.no_directory (rw (o.printed, download_single_file) (rw o.parsed refl))))

  -- The ledger behind an attempt that forwarded these chunks from `n` on.
  abbrev pub ledger_after : ℕ → List Text → ResumeLedger
  ledger_after n chunks =
      update (sent_name spec) (min (n + length (flatten chunks)) size) size mtime
        (from_entries spec.resume)

  abbrev pub StartsAt : ℕ → Type 0
  StartsAt n = start_offset size mtime (lookup (sent_name spec) (from_entries spec.resume)) ≡ n

  pub download-stalled :
      (shell : PtyShell) (n : ℕ) (chunks : List Text) (e : ShellError)
      → Offers spec.remote_path size mtime shell
      → StartsAt n
      → Reads spec.remote_path size n chunks (err e) shell
      → download shell spec
        ≡ failed
            (map file_frame (file_frames (sent_name spec) size mtime n chunks []))
            (ledger_after n chunks)
            (shell_failed e)
  download-stalled shell n chunks e o s r =
      download-Offers shell o
      ∙ ap (completed spec (shell.run_command_raw (codes "stty sane")))
          (send_file_lem shell chunks (err e) n (from_entries spec.resume) s r)

  pub download-done :
      (shell : PtyShell) (n : ℕ) (chunks : List Text)
      → Offers spec.remote_path size mtime shell
      → StartsAt n
      → Reads spec.remote_path size n chunks (ok 0) shell
      → Restored shell
      → download shell spec ≡ record {
        frames = map file_frame (file_frames (sent_name spec) size mtime n chunks closing);
        resume = spec.resume;
        outcome = ok tt;
      }
  download-done shell n chunks o s r (sane, code, e) =
      let p =
        file_progress spec.remote_path (sent_name spec) size mtime n (from_entries spec.resume)
          (chunks, ok 0) in
      download-Offers shell o
      ∙ ap (completed spec (shell.run_command_raw (codes "stty sane")))
          (send_file_lem shell chunks (ok 0) n (from_entries spec.resume) s r)
      ∙ ap (λ run. completed spec run p) e
      ∙ ap
          (λ (fs : List Frame).
            let a : DownloadAttempt = record {
              frames = fs;
              resume = spec.resume;
              outcome = ok tt;
            } in
            a)
          (map-closing (begin_file (sent_name spec) size mtime n ∷ data_frames chunks))

  -- The next attempt starts where the first one stopped.
  pub next-StartsAt :
      (n : ℕ) (chunks : List Text)
      → 0 < n + length (flatten chunks)
      → n + length (flatten chunks) ≤ size
      → start_offset size mtime
          (lookup (sent_name spec) (from_entries (into_entries (ledger_after n chunks))))
        ≡ n + length (flatten chunks)
  next-StartsAt n chunks p b =
      let forwarded = n + length (flatten chunks) in
      let e = entry_at (sent_name spec) forwarded size mtime in
      let all : min forwarded size ≡ forwarded = omega arith in
      let ledger = update (sent_name spec) forwarded size mtime (from_entries spec.resume) in
      let is_ledger =
        insert-IsLedger (sent_name spec) e (from_entries spec.resume) refl
          (from_entries-IsLedger spec.resume) in
      let found : lookup (sent_name spec) (from_entries (into_entries ledger)) ≡ some e =
        from_entries-into_entries ledger (sent_name spec) is_ledger
        ∙ lookup-insert_same (sent_name spec) e (from_entries spec.resume) in
      let valid : start_offset size mtime (some e) ≡ forwarded =
        rw (==_refl size, ==_refl mtime, lt→ltb 0 forwarded p, le→leb forwarded size b) refl in
      rw all (ap (start_offset size mtime) found ∙ valid)

  pub map-file_frames :
      (n m : ℕ) (first later : List Text)
      → map file_frame (file_frames (sent_name spec) size mtime n first [])
          ++ map file_frame (file_frames (sent_name spec) size mtime m later closing)
        ≡ map file_frame (
            file_frames
              (sent_name spec)
              size
              mtime
              n
              first
              (file_frames (sent_name spec) size mtime m later closing))
  map-file_frames n m first later =
      sym (map-append file_frame (file_frames (sent_name spec) size mtime n first []) _)
      ∙ ap (λ fs. map file_frame (begin_file (sent_name spec) size mtime n ∷ fs))
          (ap (λ fs. fs ++ file_frames (sent_name spec) size mtime m later closing)
            (append-nil (data_frames first)))
