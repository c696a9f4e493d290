-- ===== src/Session/Finals.antt =====
-- The exit code of a command, and the output that is lost behind it.
use cross_host_ops.Base.{
  append-nil, ℕ, ◌≡◌, refl, sym, ap, ExitCode, non_negative, as_i32, ◌∙◌, false, List, [], ◌∷◌,
  ◌++◌, map, ◌==◌, if◌then◌else◌, Bool-cases, inl, inr, Text,
}
use cross_host_ops.Session.Exit.{
  SessionEvent, stdout, exit_status, session_eof, ChannelMsg, channel_data, extended_data,
  channel_status, channel_eof, channel_close, other, no_exit, final_event, read_driver, reader,
  waiter, Merge, nothing, left, right, ServerEvent, sent_stdout, sent_stderr, then_event,
  drive_exec,
}

-- Output, or a message that means nothing here.
pub data OutputMsg : Type 0 where
  on_stdout on_stderr : Text → OutputMsg
  ignored : OutputMsg

abbrev pub message : OutputMsg → ChannelMsg
message (on_stdout d) = channel_data d
message (on_stderr d) = extended_data d
message ignored = other

abbrev pub outputs : List OutputMsg → List ServerEvent
outputs [] = []
outputs (on_stdout d ∷ ms) = sent_stdout d ∷ outputs ms
outputs (on_stderr d ∷ ms) = sent_stderr d ∷ outputs ms
outputs (ignored ∷ ms) = outputs ms

abbrev then_all : List ServerEvent → List ServerEvent × ExitCode → List ServerEvent × ExitCode
then_all es (events, code) = (es ++ events, code)

drive_exec-messages :
    (cell : ℕ) (ms : List OutputMsg) (rest : List ChannelMsg)
    → drive_exec (read_driver cell false (map message ms ++ rest))
      ≡ then_all (outputs ms) (drive_exec (read_driver cell false rest))
unfolding drive_exec read_driver
drive_exec-messages cell [] rest = refl
drive_exec-messages cell (on_stdout d ∷ ms) rest =
    ap (then_event (sent_stdout d)) (drive_exec-messages cell ms rest)
drive_exec-messages cell (on_stderr d ∷ ms) rest =
    ap (then_event (sent_stderr d)) (drive_exec-messages cell ms rest)
drive_exec-messages cell (ignored ∷ ms) rest = drive_exec-messages cell ms rest

-- The status in the cell of the handler.
abbrev pub code_of : ℕ → ExitCode
code_of cell = if cell == no_exit then non_negative 0 else as_i32 cell

drive_exec-final :
    (cell : ℕ) (events : List SessionEvent)
    → drive_exec (final_event cell ∷ events) ≡ ([], code_of cell)
unfolding drive_exec
drive_exec-final cell events = elim (Bool-cases (cell == no_exit)) [
  | inl e ↦ rw e refl
  | inr e ↦ rw e refl
]

-- Output and then a status: what came before it is forwarded, and the status, taken for an `i32`,
-- is the exit code, whatever comes behind it. Output and then the end of the channel, or nothing more: all of it is forwarded,
-- and the exit code is that of the handler's cell, taken for an `i32`, or 0 if that is empty.
pub drive_exec-read_driver :
    (cell c : ℕ) (ms : List OutputMsg) (later : List ChannelMsg)
    → (drive_exec (read_driver cell false (map message ms ++ channel_status c ∷ later))
        ≡ (outputs ms, as_i32 c))
      × (drive_exec (read_driver cell false (map message ms ++ channel_eof ∷ later))
          ≡ (outputs ms, code_of cell))
      × (drive_exec (read_driver cell false (map message ms ++ channel_close ∷ later))
          ≡ (outputs ms, code_of cell))
      × (drive_exec (read_driver cell false (map message ms)) ≡ (outputs ms, code_of cell))
unfolding read_driver drive_exec
drive_exec-read_driver cell c ms later =
    let all : (code : ExitCode) → then_all (outputs ms) ([], code) ≡ (outputs ms, code) =
      λ code. ap (λ es. (es, code)) (append-nil (outputs ms)) in
    let ends : (events : List SessionEvent)
        → then_all (outputs ms) (drive_exec (final_event cell ∷ events))
          ≡ (outputs ms, code_of cell) =
      λ events. ap (then_all (outputs ms)) (drive_exec-final cell events) ∙ all (code_of cell) in
    (
      drive_exec-messages cell ms (channel_status c ∷ later) ∙ all (as_i32 c),
      drive_exec-messages cell ms (channel_eof ∷ later) ∙ ends (final_event cell ∷ []),
      drive_exec-messages cell ms (channel_close ∷ later) ∙ ends (final_event cell ∷ []),
      ap (λ l. drive_exec (read_driver cell false l)) (sym (append-nil (map message ms)))
          ∙ drive_exec-messages cell ms []
          ∙ ends [],
    )

first_part :
    {xs ys events : List SessionEvent}
    → Merge xs ys events
    → (chunks : List Text) (code : ExitCode) → xs ≡ reader chunks
    → ys ≡ waiter code
    → (first : List Text) × (later : List Text) × (chunks ≡ first ++ later)
      × (drive_exec events ≡ (map sent_stdout first, code))
unfolding drive_exec
first_part nothing chunks code e f = cc
first_part (left x m) [] code e f = cc
first_part (left {zs = zs} x m) (c ∷ chunks) code e f =
    let same : x ≡ stdout c = cc in
    let (first, later, split, run) = first_part m chunks code (cc) f in
    (
      c ∷ first,
      later,
      ap (◌∷◌ c) split,
      ap (λ y. drive_exec (y ∷ zs)) same ∙ ap (then_event (sent_stdout c)) run,
    )
first_part (right {zs = zs} y m) chunks code e f =
    let same : y ≡ exit_status code = cc in ([], chunks, refl, ap (λ x. drive_exec (x ∷ zs)) same)

-- A local process: in every order in which its tasks send, the exit code is right, and some first
-- part of its output is forwarded.
drive_exec-Merge :
    (chunks : List Text) (code : ExitCode) (events : List SessionEvent)
    → Merge (reader chunks) (waiter code) events
    → (first : List Text) × (later : List Text) × (chunks ≡ first ++ later)
      × (drive_exec events ≡ (map sent_stdout first, code))
drive_exec-Merge chunks code events m = first_part m chunks code refl refl

Merge-left : (xs : List SessionEvent) → Merge xs [] xs
Merge-left [] = nothing
Merge-left (x ∷ xs) = left x (Merge-left xs)

-- A local process: for each first part of its output there is an order in which only that part is
-- forwarded, though the exit code is reported.
pub local_output_lost :
    (first later : List Text) (code : ExitCode)
    → (events : List SessionEvent) × Merge (reader (first ++ later)) (waiter code) events
      × (drive_exec events ≡ (map sent_stdout first, code))
unfolding drive_exec
local_output_lost [] later code = (
  waiter code ++ reader later,
  right (exit_status code) (right session_eof (Merge-left (reader later))),
  refl,
)
local_output_lost (c ∷ first) later code =
    let (events, m, e) = local_output_lost first later code in
    (stdout c ∷ events, left (stdout c) m, ap (then_event (sent_stdout c)) e)
