-- ===== src/Session/Started.antt =====
-- Up to its start, a process is waited for, and then it has what was sent before.
use mathlib.Core.List.{map-append}
use cross_host_ops.Base.{
  ◌≡◌, refl, sym, ap, ◌∙◌, subst, inl, inr, Bool, true, false, ◌&&◌, List, [], ◌∷◌, ◌++◌,
  append-nil, map, Option, none, some, arith, if◌then◌else◌, Text, codes, text_eq, Bool-cases,
}
use cross_host_ops.Session.{
  dropped_by, control, data_arrived, eof_arrived, resized, signalled, Command, request_pty, set_env,
  exec, shell, subsystem, window_change, signal, write_stdin, eof, Input, bytes, end, Driver,
  flush_pending_stdin, spawn, start, start_subsystem, step, System,
}
use cross_host_ops.Session.Written.{
  input_of, EndsLast, starts, ended, EndsLast-ended, ended-snoc, Waiting, Running, flush-Running,
  TakesAll,
}

pub same : (is : List Input) (d d' : Driver) → d' ≡ d → Waiting is d → Waiting (is ++ []) d'
same is d d' e (b, k, h) = subst (Waiting (is ++ [])) (sym e) (b, k, h ∙ sym (append-nil is))

start-failed :
    (system : System) (argv : List Text) (spawned : Bool) (d : Driver)
    → spawned ≡ false
    → d.backend ≡ none
    → (start system d.backend argv spawned d).0 ≡ d
unfolding start
start-failed system argv spawned d n b =
    ap (λ o. (start system o argv spawned d).0) b ∙ ap (λ s. (start system none argv s d).0) n

pub start_subsystem-failed :
    (system : System) (name : Text) (found : Option Text) (spawned : Bool) (d : Driver)
    → starts (subsystem name found spawned) ≡ false
    → (start_subsystem system name found spawned d).0 ≡ d
unfolding start_subsystem
start_subsystem-failed system name none spawned d n = ground arith
start_subsystem-failed system name (some path) spawned d n = ground arith

-- Nothing comes behind an end that is pending.
not_pending :
    (is xs : List Input) (i : Input) (d : Driver)
    → Waiting is d
    → EndsLast (is ++ i ∷ xs)
    → d.pending_eof ≡ false
not_pending is xs i d (b, k, h) e = elim (Bool-cases d.pending_eof) [
  | inl p ↦
      let all : map bytes d.pending_stdin ++ end ∷ [] ≡ is = rw p at h in
      let has_end : ended is ≡ true = ap ended (sym all) ∙ ended-snoc (map bytes d.pending_stdin) in
      cc (EndsLast-ended is (i ∷ xs) has_end e)
  | inr p ↦ p
]

more_data :
    (is xs : List Input) (t : Text) (d : Driver)
    → Waiting is d
    → EndsLast (is ++ bytes t ∷ xs)
    → Waiting (is ++ bytes t ∷ []) (record d { pending_stdin = d.pending_stdin ++ (t ∷ []) })
more_data is xs t d (b, k, h) e =
    let p = not_pending is xs (bytes t) d (b, k, h) e in
    let all : map bytes d.pending_stdin ≡ is =
      sym (append-nil (map bytes d.pending_stdin))
      ∙ ap (λ q. map bytes d.pending_stdin ++ (if q then end ∷ [] else [])) (sym p)
      ∙ h in
    (
      b,
      k,
      ap (λ q. map bytes (d.pending_stdin ++ t ∷ []) ++ (if q then end ∷ [] else [])) p
          ∙ append-nil (map bytes (d.pending_stdin ++ t ∷ []))
          ∙ map-append bytes d.pending_stdin (t ∷ [])
          ∙ ap (λ l. l ++ bytes t ∷ []) all,
    )

eof_pending :
    (is xs : List Input) (d : Driver)
    → Waiting is d
    → EndsLast (is ++ end ∷ xs)
    → Waiting (is ++ end ∷ []) (record d { pending_eof = true })
eof_pending is xs d (b, k, h) e =
    let p = not_pending is xs end d (b, k, h) e in
    let all : map bytes d.pending_stdin ≡ is =
      sym (append-nil (map bytes d.pending_stdin))
      ∙ ap (λ q. map bytes d.pending_stdin ++ (if q then end ∷ [] else [])) (sym p)
      ∙ h in
    (b, k, ap (λ l. l ++ end ∷ []) all)

-- A command that makes no process, before one was made.
pub step-Waiting :
    (system : System) (program : Text) (c : Command) (is xs : List Input) (d : Driver)
    → starts c ≡ false
    → Waiting is d
    → EndsLast (is ++ (input_of c ++ xs))
    → Waiting (is ++ input_of c) (step system program c d).0
unfolding step control data_arrived eof_arrived
step-Waiting system program (request_pty t cols rows) is xs d n (b, k, h) e =
    (b, k, h ∙ sym (append-nil is))
step-Waiting system program (set_env k v) is xs d n (b, q, h) e = (b, q, h ∙ sym (append-nil is))
step-Waiting system program (exec command spawned) is xs d n w e =
    same is d _ (start-failed system _ spawned d n w.0) w
step-Waiting system program (shell spawned) is xs d n w e =
    same is d _ (start-failed system _ spawned d n w.0) w
step-Waiting system program (subsystem name found spawned) is xs d n w e =
    same is d _ (start_subsystem-failed system name found spawned d n) w
step-Waiting system program (window_change c r) is xs d n w e =
    same is d _ (ap (λ o. control o (resized c r) d) w.0) w
step-Waiting system program (signal s) is xs d n w e =
    same is d _ (ap (λ o. control o (signalled s) d) w.0) w
step-Waiting system program (write_stdin t) is xs d n w e =
    subst (Waiting (is ++ bytes t ∷ [])) (sym (ap (λ o. data_arrived system o t d) w.0))
      (more_data is xs t d w e)
step-Waiting system program eof is xs d n w e =
    subst (Waiting (is ++ end ∷ [])) (sym (ap (λ o. eof_arrived system o d) w.0))
      (eof_pending is xs d w e)

start-Running :
    (system : System) (argv : List Text) (spawned : Bool) (is : List Input) (d : Driver)
    → TakesAll system
    → spawned ≡ true
    → Waiting is d
    → EndsLast is
    → Running is (start system d.backend argv spawned d).0
unfolding start
start-Running system argv spawned is d takes y (b, k, h) e =
    let eq : (start system d.backend argv spawned d).0
        ≡ flush_pending_stdin system (spawn d.pty d.env argv) d =
      ap (λ o. (start system o argv spawned d).0) b ∙ ap (λ s. (start system none argv s d).0) y in
    subst (Running is) (sym eq)
      (flush-Running system is (spawn d.pty d.env argv) d takes k h refl refl e)

and_false : (b : Bool) → b && false ≡ false
and_false true = refl
and_false false = refl

start_subsystem-Running :
    (system : System) (name : Text) (found : Option Text) (spawned : Bool) (is : List Input)
    (d : Driver)
    → TakesAll system
    → starts (subsystem name found spawned) ≡ true
    → Waiting is d
    → EndsLast is
    → Running is (start_subsystem system name found spawned d).0
unfolding start_subsystem
start_subsystem-Running system name none spawned is d takes y w e =
    cc (y, and_false (text_eq name (codes "sftp")))
start_subsystem-Running system name (some path) spawned is d takes y (b, k, h) e =
    let named : text_eq name (codes "sftp") ≡ true = ground arith in
    let made : spawned ≡ true = ground arith in
    let d' = record d { dropped = dropped_by d.backend d.dropped } in
    let none_dropped : dropped_by d.backend d.dropped ≡ [] =
      ap (λ o. dropped_by o d.dropped) b ∙ k in
    rw (named, made)
      (flush-Running system is (spawn none [] (path ∷ [])) d' takes none_dropped h refl refl e)

-- The command that makes the process.
pub step-Started :
    (system : System) (program : Text) (c : Command) (is : List Input) (d : Driver)
    → TakesAll system
    → starts c ≡ true
    → Waiting is d
    → EndsLast is
    → Running (is ++ input_of c) (step system program c d).0
unfolding step
step-Started system program (exec command spawned) is d takes y w e =
    subst (λ x. Running x (step system program (exec command spawned) d).0) (sym (append-nil is))
      (start-Running system _ spawned is d takes y w e)
step-Started system program (shell spawned) is d takes y w e =
    subst (λ x. Running x (step system program (shell spawned) d).0) (sym (append-nil is))
      (start-Running system _ spawned is d takes y w e)
step-Started system program (subsystem name found spawned) is d takes y w e =
    subst (λ x. Running x (step system program (subsystem name found spawned) d).0)
      (sym (append-nil is)) (start_subsystem-Running system name found spawned is d takes y w e)
step-Started system program (request_pty t cols rows) is d takes y w e = cc
step-Started system program (set_env k v) is d takes y w e = cc
step-Started system program (window_change c r) is d takes y w e = cc
step-Started system program (signal s) is d takes y w e = cc
step-Started system program (write_stdin t) is d takes y w e = cc
step-Started system program eof is d takes y w e = cc
