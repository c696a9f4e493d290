-- ===== src/ShellCopy/Tree.antt =====
-- `download_recursive` of src/daemon/session/shell_copy.rs: the files, directories and links that a
-- listing by `find` names.
use cross_host_ops.Base.{
  ℕ, ◌&&◌, List, [], ◌∷◌, ◌++◌, none, some, ◌==◌, if◌then◌else◌, ok, err, Text, codes, is_empty,
  split, strip_prefix, starts_with, newline, carriage_return, parse_u64,
}
use cross_host_ops.Filepath.{slash}
use cross_host_ops.Shell.{shell_quote}
use cross_host_ops.ShellCopy.{
  ResumeLedger, PtyShell, captured, or_zero, parse_mtime, file_name, directory_frame, symlink_frame,
  Progress, send_file,
}

-- `lines`, with the `\r` at an end cut off.
pub trim_returns : Text → Text
trim_returns [] = []
trim_returns (c ∷ s) =
    let rest = trim_returns s in if is_empty rest && c == carriage_return then [] else c ∷ rest

abbrev pub tab : ℕ
tab = 9

abbrev pub trim_slashes : Text → Text
trim_slashes [] = []
trim_slashes (c ∷ s) = let rest = trim_slashes s in if c == slash then rest else c ∷ s

-- The path below the root of the download.
pub relative_to : Text → Text → Text
unfolding file_name
relative_to remote_path full_path = elim (file_name remote_path) [
  | none ↦ full_path
  | some name ↦ elim (strip_prefix remote_path full_path) [
    | none ↦ trim_slashes full_path
    | some rest ↦ trim_slashes rest
  ]
]

abbrev pub first_part : List Text → Text
first_part [] = []
first_part (p ∷ parts) = p

abbrev pub tree_entry : PtyShell → Text → Text → List Text → ℕ → ℕ → Text → ResumeLedger → Progress
tree_entry shell ftype full_path links size mtime relative ledger =
    if starts_with (codes "d") ftype
    then record { frames = directory_frame relative mtime ∷ []; ledger = ledger; outcome = ok tt }
    else if starts_with (codes "l") ftype
    then record {
      frames = symlink_frame relative (first_part links) ∷ [];
      ledger = ledger;
      outcome = ok tt;
    }
    else send_file shell full_path relative size mtime ledger

abbrev pub nothing_sent : ResumeLedger → Progress
nothing_sent ledger = record { frames = []; ledger = ledger; outcome = ok tt }

-- An entry by the fields of its line; a line of less than five fields is passed over.
pub tree_fields : PtyShell → Text → List Text → ResumeLedger → Progress
unfolding relative_to
tree_fields shell remote_path (ftype ∷ mode ∷ mtime ∷ size ∷ full_path ∷ links) ledger =
    tree_entry shell ftype full_path links (or_zero (parse_u64 size))
      (parse_mtime (first_part (split b'.' mtime))) (relative_to remote_path full_path) ledger
tree_fields shell remote_path _ ledger = nothing_sent ledger

pub tree_line : PtyShell → Text → Text → ResumeLedger → Progress
unfolding tree_fields trim_returns send_file
tree_line shell remote_path line ledger =
    let line' = trim_returns line in
    if is_empty line'
    then nothing_sent ledger
    else tree_fields shell remote_path (split tab line') ledger

abbrev pub then_progress : Progress → Progress → Progress
then_progress p q = record q { frames = p.frames ++ q.frames }

-- The loop over the lines ends at the first error.
pub tree_lines : PtyShell → Text → List Text → ResumeLedger → Progress
unfolding tree_line
tree_lines shell remote_path [] ledger = nothing_sent ledger
tree_lines shell remote_path (line ∷ lines) ledger =
    let p = tree_line shell remote_path line ledger in
    elim p.outcome [
      | err e ↦ p
      | ok done ↦ then_progress p (tree_lines shell remote_path lines p.ledger)
    ]

abbrev pub find_command : Text → Text
find_command remote_path =
    codes "find "
    ++ (shell_quote remote_path ++ codes " -printf '%y\\t%m\\t%T@\\t%s\\t%p\\t%l\\n' 2>/dev/null")

pub download_recursive : PtyShell → Text → ResumeLedger → Progress
unfolding tree_lines
download_recursive shell remote_path ledger =
    elim (captured (shell.run_command_raw (find_command remote_path))) [
      | err e ↦ record { frames = []; ledger = ledger; outcome = err e }
      | ok output ↦ tree_lines shell remote_path (split newline output) ledger
    ]
