-- ===== src/Session/Tests.antt =====
-- Sessions at concrete commands.
use cross_host_ops.Base.{
  ◌≡◌, refl, true, false, List, [], ◌∷◌, ◌++◌, none, some, codes, non_negative,
}
use cross_host_ops.Session.{
  Command, set_env, exec, shell, write_stdin, eof, bytes, end, whole, partial, failed, write,
  Backend, Driver, new, driver,
}
use cross_host_ops.Session.Exit.{
  SessionEvent, session_eof, channel_data, channel_status, channel_eof, no_exit, read_driver,
  reader, waiter, Merge, sent_stdout, drive_exec,
}
use cross_host_ops.Session.Finals.{on_stdout, drive_exec-read_driver, local_output_lost}
use cross_host_ops.Session.Order.{driver_ordered}

abbrev before : List Command
before =
    set_env (codes "LANG") (codes "C")
    ∷ (write_stdin (codes "hel") ∷ (exec (codes "cat") false ∷ []))

abbrev behind : List Command
behind = write_stdin (codes "lo") ∷ (shell true ∷ (eof ∷ []))

driver_ordered_example :
    (b : Backend) × ((driver
        (λ b t. whole)
        (codes "/bin/sh")
        (before ++ exec (codes "cat") true ∷ behind)
        new).backend
      ≡ some b)
    × ((driver
          (λ b t. whole)
          (codes "/bin/sh")
          (before ++ exec (codes "cat") true ∷ behind)
          new).dropped
        ≡ [])
    × (b.written ≡ bytes (codes "hel") ∷ bytes (codes "lo") ∷ end ∷ [])
driver_ordered_example =
    driver_ordered (λ b t. whole) (codes "/bin/sh") before behind (exec (codes "cat") true)
      (λ b t. refl) (refl, (refl, (refl, tt))) refl (refl, (refl, (refl, tt))) refl

abbrev cat : Backend
cat = record {
  argv = codes "cat" ∷ [];
  env = [];
  pty = none;
  open_pipe = true;
  written = [];
  controls = [];
}

abbrev busy : Driver
busy = record {
  pty = none;
  env = [];
  backend = some cat;
  pending_stdin = [];
  pending_eof = false;
  dropped = [];
}

local_output_lost_example :
    (events : List SessionEvent) × Merge
      (reader (codes "a" ∷ (codes "b" ∷ [])))
      (waiter (non_negative 0))
      events
    × (drive_exec events ≡ (sent_stdout (codes "a") ∷ [], non_negative 0))
local_output_lost_example = local_output_lost (codes "a" ∷ []) (codes "b" ∷ []) (non_negative 0)

drive_exec-read_driver_example :
    drive_exec
      (read_driver 0 false (channel_data (codes "hi") ∷ (channel_status 7 ∷ (channel_eof ∷ []))))
    ≡ (sent_stdout (codes "hi") ∷ [], non_negative 7)
drive_exec-read_driver_example =
    (drive_exec-read_driver 0 7 (on_stdout (codes "hi") ∷ []) (channel_eof ∷ [])).0

final_sent_twice : read_driver no_exit false (channel_eof ∷ []) ≡ session_eof ∷ (session_eof ∷ [])
unfolding read_driver
final_sent_twice = refl

abbrev terminal : Backend
terminal = record cat { pty = some (codes "xterm", 80, 24) }

-- A terminal that takes two bytes: the others are dropped, and what comes next is written.
partial_write_lost :
    (write
      (λ b t. whole)
      (codes "ls\n")
      (write (λ b t. partial 2) (codes "rm -i x\n") terminal)).written
    ≡ bytes (codes "rm") ∷ (bytes (codes "ls\n") ∷ [])
unfolding write
partial_write_lost = refl

-- A pipe that fails is closed, and what comes next is not written.
pipe_error_closes :
    (write (λ b t. whole) (codes "ls\n") (write (λ b t. failed 2) (codes "date\n") cat)).written
    ≡ bytes (codes "da") ∷ (end ∷ [])
unfolding write
pipe_error_closes = refl
