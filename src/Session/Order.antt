-- ===== src/Session/Order.antt =====
-- The process gets what was sent to the session, in that order, whenever it was
-- started, if what is written to it is taken whole.
use mathlib.Core.List.{append-eq-nil_iff}
use cross_host_ops.Base.{
  ok, err, ℕ, ◌≡◌, refl, sym, ap, ◌∙◌, subst, Bool, true, false, List, [], ◌∷◌, ◌++◌, append-nil,
  append_assoc, Option, none, some, All, Text, codes,
}
use cross_host_ops.Session.{
  shell_exec_flag, already_running, Control, dropped_by, control, data_arrived, eof_arrived,
  resized, signalled, on_pty, Command, request_pty, set_env, exec, shell, subsystem, window_change,
  signal, write_stdin, eof, Input, bytes, end, Backend, Driver, new, write, write_eof,
  flush_pending_stdin, start, start_subsystem, step, driver, System,
}
use cross_host_ops.Session.Written.{
  input_of, inputs, EndsLast, starts, replaces, Took, write-Took, write_eof-Took, Waiting, Running,
  TakesAll,
}
use cross_host_ops.Session.Started.{step-Waiting, step-Started, same, start_subsystem-failed}

still : (is : List Input) (d : Driver) → Running is d → Running (is ++ []) d
still is d r = subst (λ x. Running x d) (sym (append-nil is)) r

on_pty-Took :
    (p : Option (Text × ℕ × ℕ)) (c : Control) (is : List Input) (b : Backend)
    → Took is b
    → Took is (on_pty p c b)
on_pty-Took none c is b t = t
on_pty-Took (some p) c is b t = t

control-Running :
    (c : Control) (is : List Input) (d : Driver) → Running is d → Running is (control d.backend c d)
unfolding control
control-Running c is d (b, e, k, t) =
    subst (Running is) (sym (ap (λ o. control o c d) e))
      (on_pty b.pty c b, refl, k, on_pty-Took b.pty c is b t)

start_refused :
    (system : System) (argv : List Text) (spawned : Bool) (is : List Input) (d : Driver)
    → Running is d
    → (start system d.backend argv spawned d).0 ≡ d
unfolding start
start_refused system argv spawned is d (b, e, k, t) = ap (λ o. (start system o argv spawned d).0) e

-- A command behind that, which does not replace the process.
step-Running :
    (system : System) (program : Text) (c : Command) (is xs : List Input) (d : Driver)
    → TakesAll system
    → replaces c ≡ false
    → Running is d
    → EndsLast (is ++ (input_of c ++ xs))
    → Running (is ++ input_of c) (step system program c d).0
unfolding step data_arrived eof_arrived
step-Running system program (exec command spawned) is xs d takes n r e =
    still is (step system program (exec command spawned) d).0
      (subst (Running is) (sym (start_refused system _ spawned is d r)) r)
step-Running system program (shell spawned) is xs d takes n r e =
    still is (step system program (shell spawned) d).0
      (subst (Running is) (sym (start_refused system _ spawned is d r)) r)
step-Running system program (subsystem name found spawned) is xs d takes n r e =
    still is (step system program (subsystem name found spawned) d).0
      (subst (Running is) (sym (start_subsystem-failed system name found spawned d n)) r)
step-Running system program (request_pty t cols rows) is xs d takes n r e =
    still is (step system program (request_pty t cols rows) d).0 r
step-Running system program (set_env k v) is xs d takes n r e =
    still is (step system program (set_env k v) d).0 r
step-Running system program (window_change c r) is xs d takes n h e =
    still is (step system program (window_change c r) d).0 (control-Running (resized c r) is d h)
step-Running system program (signal s) is xs d takes n h e =
    still is (step system program (signal s) d).0 (control-Running (signalled s) is d h)
step-Running system program (write_stdin t) is xs d takes n (b, q, k, h) e =
    subst (Running (is ++ bytes t ∷ [])) (sym (ap (λ o. data_arrived system o t d) q))
      (write system t b, refl, k, write-Took system is xs t b takes h e)
step-Running system program eof is xs d takes n (b, q, k, h) e =
    subst (Running (is ++ end ∷ [])) (sym (ap (λ o. eof_arrived system o d) q))
      (write_eof system b, refl, k, write_eof-Took system is xs b takes h e)

EndsLast-left : (xs ys : List Input) → EndsLast (xs ++ ys) → EndsLast xs
EndsLast-left [] ys e = tt
EndsLast-left (bytes b ∷ xs) ys e = EndsLast-left xs ys e
EndsLast-left (end ∷ xs) ys e = (append-eq-nil_iff.0 e).0

inputs-append : (xs ys : List Command) → inputs (xs ++ ys) ≡ inputs xs ++ inputs ys
inputs-append [] ys = refl
inputs-append (c ∷ xs) ys =
    ap (λ l. input_of c ++ l) (inputs-append xs ys)
    ∙ sym (append_assoc (input_of c) (inputs xs) (inputs ys))

driver-append :
    (system : System) (program : Text) (xs ys : List Command) (d : Driver)
    → driver system program (xs ++ ys) d ≡ driver system program ys (driver system program xs d)
unfolding driver
driver-append system program [] ys d = refl
driver-append system program (c ∷ xs) ys d =
    driver-append system program xs ys (step system program c d).0

driver-Waiting :
    (system : System) (program : Text) (pre : List Command) (is xs : List Input) (d : Driver)
    → All (λ c. starts c ≡ false) pre
    → Waiting is d
    → EndsLast (is ++ (inputs pre ++ xs))
    → Waiting (is ++ inputs pre) (driver system program pre d)
unfolding driver
driver-Waiting system program [] is xs d n w e = same is d d refl w
driver-Waiting system program (c ∷ pre) is xs d (n, ns) w e =
    let e' = subst (λ l. EndsLast (is ++ l)) (append_assoc (input_of c) (inputs pre) xs) e in
    let next = step-Waiting system program c is (inputs pre ++ xs) d n w e' in
    let e2 = subst EndsLast (sym (append_assoc is (input_of c) (inputs pre ++ xs))) e' in
    subst (λ l. Waiting l (driver system program pre (step system program c d).0))
      (append_assoc is (input_of c) (inputs pre))
      (driver-Waiting system program pre (is ++ input_of c) xs (step system program c d).0 ns next
        e2)

driver-Running :
    (system : System) (program : Text) (post : List Command) (is : List Input) (d : Driver)
    → TakesAll system
    → All (λ c. replaces c ≡ false) post
    → Running is d
    → EndsLast (is ++ inputs post)
    → Running (is ++ inputs post) (driver system program post d)
unfolding driver
driver-Running system program [] is d takes n r e = still is d r
driver-Running system program (c ∷ post) is d takes (n, ns) r e =
    let next = step-Running system program c is (inputs post) d takes n r e in
    let e2 = subst EndsLast (sym (append_assoc is (input_of c) (inputs post))) e in
    subst (λ l. Running l (driver system program post (step system program c d).0))
      (append_assoc is (input_of c) (inputs post))
      (driver-Running system program post (is ++ input_of c) (step system program c d).0 takes ns
        next e2)

-- If the system takes every write whole: commands of which one makes the process, those before it make none, and those behind it do not
-- replace it, with no input behind the end of the input: in the end that process runs, no other was
-- dropped, and what was written to it is all input that was sent, in that order, also what was sent
-- before it was made.
pub driver_ordered :
    (system : System) (program : Text) (pre post : List Command) (c : Command)
    → TakesAll system
    → All (λ x. starts x ≡ false) pre
    → starts c ≡ true
    → All (λ x. replaces x ≡ false) post
    → EndsLast (inputs (pre ++ c ∷ post))
    → (b : Backend) × ((driver system program (pre ++ c ∷ post) new).backend ≡ some b)
      × ((driver system program (pre ++ c ∷ post) new).dropped ≡ [])
      × (b.written ≡ inputs (pre ++ c ∷ post))
unfolding driver new
driver_ordered system program pre post c takes before here behind e =
    let split = inputs-append pre (c ∷ post) in
    let e1 = subst EndsLast split e in
    let d1 = driver system program pre new in
    let w1 =
      driver-Waiting system program pre [] (inputs (c ∷ post)) new before (refl, refl, refl) e1 in
    let r1 =
      step-Started system program c (inputs pre) d1 takes here w1
        (EndsLast-left (inputs pre) (inputs (c ∷ post)) e1) in
    let regroup = append_assoc (inputs pre) (input_of c) (inputs post) in
    let e2 = subst EndsLast (sym regroup) e1 in
    let (b, q, k, (w, o)) =
      driver-Running system program post (inputs pre ++ input_of c) (step system program c d1).0
        takes behind r1 e2 in
    let run = driver-append system program pre (c ∷ post) new in
    (b, ap (λ d. d.backend) run ∙ q, ap (λ d. d.dropped) run ∙ k, w ∙ regroup ∙ sym split)

-- While a process runs, a command and a shell are refused and change nothing; but an `sftp` that is
-- found and spawned takes its place, and the process is dropped.
running_replaced :
    (system : System) (program : Text) (d : Driver) (b : Backend) (command path : Text)
    (spawned : Bool)
    → d.backend ≡ some b
    → (step system program (exec command spawned) d ≡ (d, some (err already_running)))
      × (step system program (shell spawned) d ≡ (d, some (err already_running)))
      × ((step system program (subsystem (codes "sftp") (some path) true) d).1 ≡ some (ok tt))
      × ((step system program (subsystem (codes "sftp") (some path) true) d).0.dropped
          ≡ d.dropped ++ b ∷ [])
unfolding step start start_subsystem flush_pending_stdin
running_replaced system program d b command path spawned e = (
  ap (λ o. start system o (program ∷ (shell_exec_flag program ∷ (command ∷ []))) spawned d) e,
  ap (λ o. start system o (program ∷ []) spawned d) e,
  refl,
  ap (λ o. dropped_by o d.dropped) e,
)
