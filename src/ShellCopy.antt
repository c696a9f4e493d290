-- ===== src/ShellCopy.antt =====
-- The download from behind a bastion, on the daemon's side: `download` with `download_single_file`,
-- `download_recursive`, `stream_remote_file` and `ResumeLedger` of
-- src/daemon/session/shell_copy.rs, and `copy` of src/daemon/gateway/jumpserver.rs, which tries
-- again on a new shell when a download stalls.
--
-- A `PtyShell` is what its runners answer to a command: the chunks that it sends, and an exit code
-- or an error (run_raw of PtyShell.antt is one of the runners). No command is sent twice to a shell. Modes are
-- left out, and times before 1970 (`parse_mtime` has 0 for those). The frames, the ledger and the
-- outcome are those of a run whose client takes every frame. If the client goes away before, the
-- source sends the same frames up to there, and ends with an error, since a later frame cannot be sent.
pub mod Tree
pub mod Copy
pub mod Ledger
pub mod Attempt
pub mod Stalled
mod Tests
use mathlib.Core.List.{flatten, foldl}
use cross_host_ops.Base.{
  ℕ, zero, suc, ◌+◌, ◌-◌, ◌≤◌, min, Bool, true, false, not, ◌&&◌, ◌||◌, List, [], ◌∷◌, ◌++◌, map,
  Option, none, some, length, retain, ltb, leb, ◌==◌, if◌then◌else◌, Result, ok, err, Text, codes,
  text_eq, is_empty, split_whitespace, split, strip_prefix, starts_with, newline, carriage_return,
  parse_digits, parse_u64, u64_max, to_decimal, Dict, lookup, insert,
}
use cross_host_ops.Filepath.{slash}
use cross_host_ops.Shell.{shell_quote}
use cross_host_ops.Sentinel.{find_subslice}
use cross_host_ops.Download.Resume.{data_frames}
use cross_host_ops.Download.{CopyFrame, begin_file, file_data, end_file, end_of_stream}

pub record ResumeEntry : Type 0 where
  pub relative_path : Text
  pub offset : ℕ
  pub size : ℕ
  pub mtime : ℕ

abbrev pub ResumeLedger : Type 0
ResumeLedger = Dict ResumeEntry

-- `collect` into a map: a later entry of one name replaces an earlier one.
abbrev pub add_entry : ResumeLedger → ResumeEntry → ResumeLedger
add_entry ledger e = insert e.relative_path e ledger

unfoldable pub from_entries : List ResumeEntry → ResumeLedger
from_entries = foldl add_entry []

abbrev pub entry_at : Text → ℕ → ℕ → ℕ → ResumeEntry
entry_at name offset size mtime = record {
  relative_path = name;
  offset = offset;
  size = size;
  mtime = mtime;
}

abbrev pub update : Text → ℕ → ℕ → ℕ → ResumeLedger → ResumeLedger
update name offset size mtime ledger = insert name (entry_at name offset size mtime) ledger

-- `str::cmp`, as "not greater".
pub text_le : Text → Text → Bool
text_le [] t = true
text_le (a ∷ s) [] = false
text_le (a ∷ s) (b ∷ t) = ltb a b || (a == b && text_le s t)

pub insert_sorted : ResumeEntry → List ResumeEntry → List ResumeEntry
insert_sorted e [] = e ∷ []
insert_sorted e (x ∷ xs) =
    let rest = insert_sorted e xs in
    if text_le e.relative_path x.relative_path then e ∷ (x ∷ xs) else x ∷ rest

pub sort_entries : List ResumeEntry → List ResumeEntry
unfolding insert_sorted
sort_entries [] = []
sort_entries (e ∷ es) = insert_sorted e (sort_entries es)

pub into_entries : ResumeLedger → List ResumeEntry
unfolding sort_entries
into_entries ledger = sort_entries (map (λ p. p.1) ledger)

-- An error of a runner: the shell went silent or was closed, or something else.
pub data ShellError : Type 0 where
  timed_out closed_unexpectedly other : ShellError

pub data Error : Type 0 where
  shell_failed : ShellError → Error
  raw_mode_failed needs_recursive : Error
  read_failed : Text → Error

abbrev pub Run : Type 0
Run = List Text × Result ShellError ℕ

pub record PtyShell : Type 0 where
  pub run_command_plain : Text → Run
  pub run_command_raw : Text → Run
  pub run_command_raw_b64 : Text → ℕ → Run

abbrev pub contains : Text → Text → Bool
contains needle text = elim (find_subslice text needle) [ some pos ↦ true | none ↦ false ]

abbrev pub stalls_by_name : Text → Bool
stalls_by_name path =
    contains (codes "timed out waiting for shell output") path
    || contains (codes "shell closed unexpectedly") path

-- By the words of the message; the message about a failed read has the path in it.
pub is_stall_class : Error → Bool
is_stall_class (shell_failed timed_out) = true
is_stall_class (shell_failed closed_unexpectedly) = true
is_stall_class (shell_failed other) = false
is_stall_class (read_failed path) = stalls_by_name path
is_stall_class raw_mode_failed = false
is_stall_class needs_recursive = false

abbrev pub captured : Run → Result Error Text
captured (chunks, ok code) = ok (flatten chunks)
captured (chunks, err e) = err (shell_failed e)

pub base64_read_command : Text → ℕ → Text
base64_read_command remote_path skip =
    if ltb 0 skip
    then codes "tail -c +"
      ++ (to_decimal (skip + 1)
          ++ (codes " " ++ (shell_quote remote_path ++ codes " | base64 2>/dev/null")))
    else codes "base64 " ++ (shell_quote remote_path ++ codes " 2>/dev/null")

abbrev pub kind_command : Text → Text
kind_command remote_path =
    codes "test -d " ++ (shell_quote remote_path ++ codes " && echo XHO_DIR || echo XHO_FILE")

abbrev pub stat_command : Text → Text
stat_command remote_path =
    codes "stat -c '%a %Y %s' " ++ (shell_quote remote_path ++ codes " 2>/dev/null")

abbrev pub or_zero : Option ℕ → ℕ
or_zero none = 0
or_zero (some n) = n

-- `parse::<i64>().unwrap_or(0)`
abbrev pub parse_mtime : Text → ℕ
parse_mtime s = let n = or_zero (parse_u64 s) in if leb n 9_223_372_036_854_775_807 then n else 0

-- The time and the size that `stat` prints behind the mode.
pub parse_stat : Text → ℕ × ℕ
unfolding split_whitespace
parse_stat output = elim (split_whitespace output) [
  | (mode ∷ mtime ∷ size ∷ more) ↦ (parse_mtime mtime, or_zero (parse_u64 size))
  | _ ↦ (0, 0)
]

abbrev pub last_name : Option Text → List Text → Option Text
last_name found [] = found
last_name found (part ∷ parts) = last_name (some part) parts

-- `Path::file_name` on Unix: the last part, unless that is `..`; empty parts and `.` do not count.
pub file_name : Text → Option Text
file_name path =
    let parts = retain (λ p. not (is_empty p || text_eq p (codes "."))) (split slash path) in
    elim (last_name none parts) [
      | none ↦ none
      | some name ↦ if text_eq name (codes "..") then none else some name
    ]

abbrev pub name_or : Text → Option Text → Text
name_or source_name none = source_name
name_or source_name (some name) = name

abbrev pub is_valid_hint : ℕ → ℕ → ResumeEntry → Bool
is_valid_hint size mtime h =
    h.size == size && (h.mtime == mtime && (ltb 0 h.offset && leb h.offset size))

abbrev pub start_offset : ℕ → ℕ → Option ResumeEntry → ℕ
start_offset size mtime none = 0
start_offset size mtime (some h) = if is_valid_hint size mtime h then h.offset else 0

-- A frame: one of a file, or one of the other entries of a tree.
pub data Frame : Type 0 where
  file_frame : CopyFrame → Frame
  directory_frame : Text → ℕ → Frame
  symlink_frame : Text → Text → Frame

-- Each chunk becomes a frame (`file_progress`).
abbrev pub stream_remote_file : PtyShell → Text → ℕ → ℕ → Run
stream_remote_file shell remote_path size skip =
    shell.run_command_raw_b64 (base64_read_command remote_path skip) (size - skip)

abbrev pub read_result : Text → Result ShellError ℕ → Result Error (Unit {0})
read_result remote_path (err e) = err (shell_failed e)
read_result remote_path (ok code) = if code == 0 then ok tt else err (read_failed remote_path)

-- Frames, ledger and outcome so far.
pub record Progress : Type 0 where
  pub frames : List Frame
  pub ledger : ResumeLedger
  pub outcome : Result Error (Unit {0})

abbrev pub end_frames : Result Error (Unit {0}) → List CopyFrame
end_frames (ok done) = end_file ∷ []
end_frames (err e) = []

abbrev pub file_progress : Text → Text → ℕ → ℕ → ℕ → ResumeLedger → Run → Progress
file_progress remote_path name size mtime start ledger (chunks, code) =
    let outcome = read_result remote_path code in
    record {
      frames =
          map file_frame
            (begin_file name size mtime start ∷ (data_frames chunks ++ end_frames outcome));
      ledger = update name (min (start + length (flatten chunks)) size) size mtime ledger;
      outcome = outcome;
    }

-- One file from `BeginFile` to `EndFile`.
pub send_file : PtyShell → Text → Text → ℕ → ℕ → ResumeLedger → Progress
send_file shell remote_path name size mtime ledger =
    let start = start_offset size mtime (lookup name ledger) in
    file_progress remote_path name size mtime start ledger
      (stream_remote_file shell remote_path size start)

pub download_single_file : PtyShell → Text → Text → ResumeLedger → Progress
unfolding send_file parse_stat file_name
download_single_file shell remote_path source_name ledger =
    elim (captured (shell.run_command_raw (stat_command remote_path))) [
      | err e ↦ record { frames = []; ledger = ledger; outcome = err e }
      | ok output ↦
          let (mtime, size) = parse_stat output in
          send_file shell remote_path (name_or source_name (file_name remote_path)) size mtime
            ledger
    ]
