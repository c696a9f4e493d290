-- ===== src/ShellCopy/Copy.antt =====
-- `download` of src/daemon/session/shell_copy.rs, and `copy` of src/daemon/gateway/jumpserver.rs for
-- a download: one attempt, and a second one on a new shell when the first stalls.
use cross_host_ops.Base.{
  Bool, List, [], ◌∷◌, ◌++◌, Option, none, some, ◌==◌, if◌then◌else◌, Result, ok, err, Text, codes,
}
use cross_host_ops.Download.{end_of_stream}
use cross_host_ops.ShellCopy.{
  ResumeEntry, ResumeLedger, from_entries, into_entries, Error, shell_failed, raw_mode_failed,
  needs_recursive, Run, PtyShell, is_stall_class, captured, kind_command, Frame, file_frame,
  Progress, download_single_file, contains,
}
use cross_host_ops.ShellCopy.Tree.{download_recursive}

pub record CopySpec : Type 0 where
  pub remote_path : Text
  pub source_name : Text
  pub recursive : Bool
  pub resume : List ResumeEntry

-- An attempt: what it sent, the entries that it leaves in the `CopySpec`, and whether the shell
-- came back.
pub record DownloadAttempt : Type 0 where
  pub frames : List Frame
  pub resume : List ResumeEntry
  pub outcome : Result Error (Unit {0})

abbrev pub failed : List Frame → ResumeLedger → Error → DownloadAttempt
failed frames ledger e = record { frames = frames; resume = into_entries ledger; outcome = err e }

-- `RawGuard::enter`
abbrev pub entered : Run → Result Error (Unit {0})
entered (chunks, err e) = err (shell_failed e)
entered (chunks, ok code) = if code == 0 then ok tt else err raw_mode_failed

-- The end of the transfer, and `RawGuard::complete`, which does not look at the exit code.
abbrev pub completed : CopySpec → Run → Progress → DownloadAttempt
completed spec sane p = elim p.outcome [
  | err e ↦ failed p.frames p.ledger e
  | ok done ↦ elim sane.1 [
    | err e ↦ failed (p.frames ++ (file_frame end_of_stream ∷ [])) p.ledger (shell_failed e)
    | ok code ↦ record {
      frames = p.frames ++ (file_frame end_of_stream ∷ []);
      resume = spec.resume;
      outcome = ok tt;
    }
  ]
]

abbrev pub transfer : PtyShell → CopySpec → Bool → ResumeLedger → Progress
transfer shell spec is_dir ledger =
    if is_dir
    then (if spec.recursive
        then download_recursive shell spec.remote_path ledger
        else record { frames = []; ledger = ledger; outcome = err needs_recursive })
    else download_single_file shell spec.remote_path spec.source_name ledger

unfoldable pub download : PtyShell → CopySpec → DownloadAttempt
unfolding into_entries from_entries download_single_file
download shell spec =
    let ledger = from_entries spec.resume in
    elim (captured (shell.run_command_plain (kind_command spec.remote_path))) [
      | err e ↦ failed [] ledger e
      | ok kind ↦ elim (entered (shell.run_command_plain (codes "stty raw -echo"))) [
        | err e ↦ failed [] ledger e
        | ok done ↦
            completed spec (shell.run_command_raw (codes "stty sane"))
              (transfer shell spec (contains (codes "XHO_DIR") kind) ledger)
      ]
    ]

-- What the gateway does for a download: all frames that were sent, and how it ends. A shell that
-- cannot be had is an error that is not tried again here.
pub data CopyError : Type 0 where
  no_shell : CopyError
  execution : Error → CopyError

pub record CopyRun : Type 0 where
  pub frames : List Frame
  pub outcome : Result CopyError (Unit {0})

abbrev pub last_outcome : Result Error (Unit {0}) → Result CopyError (Unit {0})
last_outcome (ok done) = ok tt
last_outcome (err e) = err (execution e)

abbrev pub last_run : List Frame → DownloadAttempt → CopyRun
last_run sent a = record { frames = sent ++ a.frames; outcome = last_outcome a.outcome }

abbrev pub last_attempt : List Frame → Option PtyShell → CopySpec → CopyRun
last_attempt sent none spec = record { frames = sent; outcome = err no_shell }
last_attempt sent (some shell) spec = last_run sent (download shell spec)

-- The second round, if there is one.
abbrev pub after_first : Option PtyShell → CopySpec → DownloadAttempt → CopyRun
after_first second spec a = elim a.outcome [
  | ok done ↦ record { frames = a.frames; outcome = ok tt }
  | err e ↦
      if is_stall_class e
      then last_attempt a.frames second (record spec { resume = a.resume })
      else record { frames = a.frames; outcome = err (execution e) }
]

-- The shells are those that `acquire_shell` gives for the two rounds.
unfoldable pub copy : Option PtyShell → Option PtyShell → CopySpec → CopyRun
copy none second spec = record { frames = []; outcome = err no_shell }
copy (some shell) second spec = after_first second spec (download shell spec)
