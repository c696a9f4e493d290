-- ===== src/Session.antt =====
-- A session on a target: the commands and events of src/daemon/session/mod.rs, and the driver of
-- src/daemon/session/local.rs, which runs a local process.
--
-- The driver takes its commands from one channel, in the order in which they were sent, so a run is
-- a list of commands. Where the driver asks the system, the command carries the answer: whether the
-- process could be spawned, and where an `sftp-server` was found. A process is known by what was
-- asked for it and by what was written to it. What comes of a write is up to the system, which is the
-- parameter `System`: a terminal (the Unix one) takes a part and the rest is dropped, or nothing, and
-- a pipe that fails is closed. The modes of a terminal are left out. What a process sends goes
-- through tasks of its own, which Exit.antt is about.
pub mod Exit
pub mod Written
pub mod Started
pub mod Order
pub mod Finals
mod Tests
use cross_host_ops.Base.{
  ℕ, Bool, true, false, not, ◌&&◌, ◌||◌, List, [], ◌∷◌, ◌++◌, Option, none, some, if◌then◌else◌,
  Result, ok, err, Text, codes, text_eq, starts_with, leb, ◌+◌, map, take,
}
use cross_host_ops.Shell.{shell_basename}

pub data Command : Type 0 where
  request_pty : Text → ℕ → ℕ → Command
  set_env : Text → Text → Command
  exec : Text → Bool → Command
  shell : Bool → Command
  subsystem : Text → Option Text → Bool → Command
  window_change : ℕ → ℕ → Command
  signal : Text → Command
  write_stdin : Text → Command
  eof : Command

pub data Error : Type 0 where
  already_running spawn_failed unsupported no_sftp_server : Error

-- What a process gets on its input: bytes, or the end. On a terminal the end is the byte 4.
pub data Input : Type 0 where
  bytes : Text → Input
  end : Input

pub data Control : Type 0 where
  resized : ℕ → ℕ → Control
  signalled : Text → Control

pub record Backend : Type 0 where
  pub argv : List Text
  pub env : List (Text × Text)
  pub pty : Option (Text × ℕ × ℕ)
  pub open_pipe : Bool
  pub written : List Input
  pub controls : List Control

-- `dropped` are the backends that another one replaced.
pub record Driver : Type 0 where
  pub pty : Option (Text × ℕ × ℕ)
  pub env : List (Text × Text)
  pub backend : Option Backend
  pub pending_stdin : List Text
  pub pending_eof : Bool
  pub dropped : List Backend

pub new : Driver
new = record {
  pty = none;
  env = [];
  backend = none;
  pending_stdin = [];
  pending_eof = false;
  dropped = [];
}

-- `to_ascii_lowercase`
abbrev pub lower_char : ℕ → ℕ
lower_char c = if leb b'A' c && leb c b'Z' then c + 32 else c

pub shell_exec_flag : Text → Text
shell_exec_flag program =
    let base = shell_basename (map lower_char program) in
    if text_eq base (codes "cmd.exe")
      || (text_eq base (codes "cmd") || starts_with (codes "powershell") base)
    then codes "/c"
    else codes "-c"

abbrev pub log : Input → Backend → Backend
log i b = record b { written = b.written ++ (i ∷ []) }

-- What the system says to a write: everything was taken, the first bytes were, or an error behind the
-- first bytes.
pub data Answer : Type 0 where
  whole : Answer
  partial failed : ℕ → Answer

abbrev pub System : Type 0
System = Backend → Text → Answer

abbrev pub close_pipe : Backend → Backend
close_pipe b = record (log end b) { open_pipe = false }

-- One write to a terminal, without another for what it leaves; to a pipe it is `write_all`, which
-- goes on until everything is taken or an error comes, and the error closes the pipe.
abbrev pub write_to : Option (Text × ℕ × ℕ) → Bool → Answer → Text → Backend → Backend
write_to (some p) open_pipe whole data' b = log (bytes data') b
write_to (some p) open_pipe (partial n) data' b = log (bytes (take n data')) b
write_to (some p) open_pipe (failed n) data' b = b
write_to none true whole data' b = log (bytes data') b
write_to none true (partial n) data' b = log (bytes data') b
write_to none true (failed n) data' b = close_pipe (log (bytes (take n data')) b)
write_to none false answer data' b = b

pub write : System → Text → Backend → Backend
write system data' b = write_to b.pty b.open_pipe (system b data') data' b

-- The byte 4 for a terminal, in one write; a pipe is closed.
abbrev pub write_eof_to : Option (Text × ℕ × ℕ) → Bool → Answer → Backend → Backend
write_eof_to (some p) open_pipe whole b = log end b
write_eof_to (some p) open_pipe (partial n) b = b
write_eof_to (some p) open_pipe (failed n) b = b
write_eof_to none true answer b = close_pipe b
write_eof_to none false answer b = b

pub write_eof : System → Backend → Backend
write_eof system b = write_eof_to b.pty b.open_pipe (system b (4 ∷ [])) b

pub write_all : System → List Text → Backend → Backend
unfolding write
write_all system [] b = b
write_all system (c ∷ chunks) b = write_all system chunks (write system c b)

abbrev pub write_eof_if : System → Bool → Backend → Backend
write_eof_if system pending b = if pending then write_eof system b else b

-- The new backend, with what was buffered for it.
pub flush_pending_stdin : System → Backend → Driver → Driver
unfolding write_all write_eof
flush_pending_stdin system b d = record d {
  backend = some (write_eof_if system d.pending_eof (write_all system d.pending_stdin b));
  pending_stdin = [];
  pending_eof = false;
}

abbrev pub spawn : Option (Text × ℕ × ℕ) → List (Text × Text) → List Text → Backend
spawn pty env argv = record {
  argv = argv;
  env = env;
  pty = pty;
  open_pipe = true;
  written = [];
  controls = [];
}

abbrev pub dropped_by : Option Backend → List Backend → List Backend
dropped_by none dropped = dropped
dropped_by (some b) dropped = dropped ++ (b ∷ [])

abbrev pub Reply : Type 0
Reply = Option (Result Error (Unit {0}))

-- `Exec` and `Shell`: a session that runs refuses them.
pub start : System → Option Backend → List Text → Bool → Driver → Driver × Reply
unfolding flush_pending_stdin
start system (some b) argv spawned d = (d, some (err already_running))
start system none argv spawned d =
    if spawned
    then (flush_pending_stdin system (spawn d.pty d.env argv) d, some (ok tt))
    else (d, some (err spawn_failed))

-- `Subsystem`, which does not look at the backend.
pub start_subsystem : System → Text → Option Text → Bool → Driver → Driver × Reply
unfolding flush_pending_stdin
start_subsystem system name none spawned d =
    if not (text_eq name (codes "sftp"))
    then (d, some (err unsupported))
    else (d, some (err no_sftp_server))
start_subsystem system name (some path) spawned d =
    if not (text_eq name (codes "sftp"))
    then (d, some (err unsupported))
    else if not spawned
    then (d, some (err spawn_failed))
    else (
      flush_pending_stdin system (spawn none [] (path ∷ []))
          (record d { dropped = dropped_by d.backend d.dropped }),
      some (ok tt),
    )

abbrev pub on_pty : Option (Text × ℕ × ℕ) → Control → Backend → Backend
on_pty none c b = b
on_pty (some p) c b = record b { controls = b.controls ++ (c ∷ []) }

pub control : Option Backend → Control → Driver → Driver
control none c d = d
control (some b) c d = record d { backend = some (on_pty b.pty c b) }

pub data_arrived : System → Option Backend → Text → Driver → Driver
unfolding write
data_arrived system none data' d = record d { pending_stdin = d.pending_stdin ++ (data' ∷ []) }
data_arrived system (some b) data' d = record d { backend = some (write system data' b) }

pub eof_arrived : System → Option Backend → Driver → Driver
unfolding write_eof
eof_arrived system none d = record d { pending_eof = true }
eof_arrived system (some b) d = record d { backend = some (write_eof system b) }

-- One round of `driver`, for a system and a shell program.
pub step : System → Text → Command → Driver → Driver × Reply
unfolding start start_subsystem control data_arrived eof_arrived shell_exec_flag
step system program (request_pty term cols rows) d =
    (record d { pty = some (term, cols, rows) }, some (ok tt))
step system program (set_env key value) d =
    (record d { env = d.env ++ ((key, value) ∷ []) }, some (ok tt))
step system program (exec command spawned) d =
    start system d.backend (program ∷ (shell_exec_flag program ∷ (command ∷ []))) spawned d
step system program (shell spawned) d = start system d.backend (program ∷ []) spawned d
step system program (subsystem name found spawned) d = start_subsystem system name found spawned d
step system program (window_change cols rows) d = (control d.backend (resized cols rows) d, none)
step system program (signal name) d = (control d.backend (signalled name) d, none)
step system program (write_stdin data') d = (data_arrived system d.backend data' d, none)
step system program eof d = (eof_arrived system d.backend d, none)

pub driver : System → Text → List Command → Driver → Driver
unfolding step
driver system program [] d = d
driver system program (c ∷ commands) d = driver system program commands (step system program c d).0
