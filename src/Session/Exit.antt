-- ===== src/Session/Exit.antt =====
-- How a command that runs in a session ends: `read_driver` of src/daemon/session/direct.rs, the
-- tasks `spawn_pipe_reader` and `spawn_waiter` of src/daemon/session/local.rs, and `drive_exec` of
-- src/daemon/session/mod.rs, which reads their events.
--
-- The consumers of events do not go away, and the cell with the status does not change while the end
-- of a channel is handled. The statuses of a channel are `u32`, and those of a session `i32`.
use cross_host_ops.Base.{
  ℕ, Bool, true, false, List, [], ◌∷◌, ◌++◌, map, ◌==◌, if◌then◌else◌, Text, codes, ExitCode,
  non_negative, as_i32,
}

pub data SessionEvent : Type 0 where
  stdout stderr : Text → SessionEvent
  exit_status : ExitCode → SessionEvent
  exit_signal : Text → SessionEvent
  session_eof : SessionEvent

pub data ChannelMsg : Type 0 where
  channel_data extended_data : Text → ChannelMsg
  channel_status : ℕ → ChannelMsg
  channel_signal : Text → ChannelMsg
  channel_eof channel_close other : ChannelMsg

abbrev pub no_exit : ℕ
no_exit = 4_294_967_295

abbrev pub final_event : ℕ → SessionEvent
final_event cell = if cell == no_exit then session_eof else exit_status (as_i32 cell)

abbrev pub finish : ℕ → Bool → List SessionEvent
finish cell true = []
finish cell false = final_event cell ∷ []

-- The event is sent where the channel ends, and once more behind the loop.
abbrev pub channel_end : ℕ → Bool → List SessionEvent
channel_end cell true = []
channel_end cell false = final_event cell ∷ finish cell false

-- The events that are sent; the flag says whether a status or a signal was among them.
unfoldable pub read_driver : ℕ → Bool → List ChannelMsg → List SessionEvent
read_driver cell exit_sent [] = finish cell exit_sent
read_driver cell exit_sent (channel_data d ∷ msgs) = stdout d ∷ read_driver cell exit_sent msgs
read_driver cell exit_sent (extended_data d ∷ msgs) = stderr d ∷ read_driver cell exit_sent msgs
read_driver cell exit_sent (channel_status c ∷ msgs) =
    exit_status (as_i32 c) ∷ read_driver cell true msgs
read_driver cell exit_sent (channel_signal s ∷ msgs) = exit_signal s ∷ read_driver cell true msgs
read_driver cell exit_sent (channel_eof ∷ msgs) = channel_end cell exit_sent
read_driver cell exit_sent (channel_close ∷ msgs) = channel_end cell exit_sent
read_driver cell exit_sent (other ∷ msgs) = read_driver cell exit_sent msgs

-- The events of the tasks of a local process: what the readers send of its output, and the waiter.
abbrev pub reader : List Text → List SessionEvent
reader chunks = map stdout chunks

abbrev pub waiter : ExitCode → List SessionEvent
waiter code = exit_status code ∷ (session_eof ∷ [])

-- Two tasks that send into one channel.
pub data Merge : List SessionEvent → List SessionEvent → List SessionEvent → Type 0 where
  nothing : Merge [] [] []
  left :
      {xs ys zs : List SessionEvent} (x : SessionEvent)
      → Merge xs ys zs
      → Merge (x ∷ xs) ys (x ∷ zs)
  right :
      {xs ys zs : List SessionEvent} (y : SessionEvent)
      → Merge xs ys zs
      → Merge xs (y ∷ ys) (y ∷ zs)

pub data ServerEvent : Type 0 where
  sent_stdout sent_stderr : Text → ServerEvent

abbrev pub killed_by : Text → Text
killed_by name = codes "killed by signal " ++ (name ++ (10 ∷ []))

abbrev pub then_event : ServerEvent → List ServerEvent × ExitCode → List ServerEvent × ExitCode
then_event e (events, code) = (e ∷ events, code)

-- What is forwarded, and the exit code.
unfoldable pub drive_exec : List SessionEvent → List ServerEvent × ExitCode
drive_exec [] = ([], non_negative 0)
drive_exec (stdout d ∷ events) = then_event (sent_stdout d) (drive_exec events)
drive_exec (stderr d ∷ events) = then_event (sent_stderr d) (drive_exec events)
drive_exec (exit_status c ∷ events) = ([], c)
drive_exec (exit_signal s ∷ events) = (sent_stderr (killed_by s) ∷ [], non_negative 255)
drive_exec (session_eof ∷ events) = ([], non_negative 0)
