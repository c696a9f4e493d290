-- ===== src/Session/Written.antt =====
-- What a session was sent, and what a process took of it.
use mathlib.Core.List.{append-eq-nil_iff}
use cross_host_ops.Base.{
  ℕ, ◌≡◌, refl, sym, ap, ◌∙◌, subst, ◌⊎◌, inl, inr, Bool, true, false, ◌&&◌, List, [], ◌∷◌, ◌++◌,
  append-nil, append_assoc, map, Option, none, some, if◌then◌else◌, Text, codes, text_eq,
  Bool-cases,
}
use cross_host_ops.Session.{
  write_to, write_eof_to, Command, exec, shell, subsystem, write_stdin, eof, Input, bytes, end,
  Backend, Driver, log, write, write_eof, write_all, write_eof_if, flush_pending_stdin, System,
  whole,
}

-- What a command adds to the input of the session.
abbrev pub input_of : Command → List Input
input_of (write_stdin data') = bytes data' ∷ []
input_of eof = end ∷ []
input_of _ = []

abbrev pub inputs : List Command → List Input
inputs [] = []
inputs (c ∷ commands) = input_of c ++ inputs commands

-- Nothing is sent behind the end.
abbrev pub EndsLast : List Input → Type 0
EndsLast [] = Unit
EndsLast (bytes b ∷ xs) = EndsLast xs
EndsLast (end ∷ xs) = xs ≡ []

abbrev pub finds : Option Text → Bool
finds none = false
finds (some path) = true

-- The command makes a process.
abbrev pub starts : Command → Bool
starts (exec command spawned) = spawned
starts (shell spawned) = spawned
starts (subsystem name found spawned) = text_eq name (codes "sftp") && (finds found && spawned)
starts _ = false

abbrev pub replaces : Command → Bool
replaces (subsystem name found spawned) = starts (subsystem name found spawned)
replaces _ = false

abbrev pub ended : List Input → Bool
ended [] = false
ended (bytes b ∷ xs) = ended xs
ended (end ∷ xs) = true

pub EndsLast-ended : (is xs : List Input) → ended is ≡ true → EndsLast (is ++ xs) → xs ≡ []
EndsLast-ended [] xs h e = cc
EndsLast-ended (bytes b ∷ is) xs h e = EndsLast-ended is xs h e
EndsLast-ended (end ∷ is) xs h e = (append-eq-nil_iff.0 e).1

pub ended-snoc : (is : List Input) → ended (is ++ end ∷ []) ≡ true
ended-snoc [] = refl
ended-snoc (bytes b ∷ is) = ended-snoc is
ended-snoc (end ∷ is) = refl

-- A process that took `is`, and takes more unless they ended.
abbrev pub Took : List Input → Backend → Type 0
Took is b = (b.written ≡ is) × ((b.open_pipe ≡ true) ⊎ (ended is ≡ true))

write_to-open :
    (p : Option (Text × ℕ × ℕ)) (data' : Text) (b : Backend)
    → write_to p true whole data' b ≡ log (bytes data') b
write_to-open none data' b = refl
write_to-open (some p) data' b = refl

-- The system takes every write whole.
abbrev pub TakesAll : System → Type 0
TakesAll system = (b : Backend) (data' : Text) → system b data' ≡ whole

write-open :
    (system : System) (data' : Text) (b : Backend)
    → TakesAll system
    → b.open_pipe ≡ true
    → write system data' b ≡ log (bytes data') b
unfolding write
write-open system data' b all o =
    ap (λ q. write_to b.pty q (system b data') data' b) o
    ∙ ap (λ a. write_to b.pty true a data' b) (all b data')
    ∙ write_to-open b.pty data' b

log-Took :
    (is : List Input) (i : Input) (b : Backend)
    → b.written ≡ is
    → b.open_pipe ≡ true
    → Took (is ++ i ∷ []) (log i b)
log-Took is i b w o = (ap (λ l. l ++ i ∷ []) w, inl o)

pub write-Took :
    (system : System) (is xs : List Input) (data' : Text) (b : Backend)
    → TakesAll system
    → Took is b
    → EndsLast (is ++ bytes data' ∷ xs)
    → Took (is ++ bytes data' ∷ []) (write system data' b)
write-Took system is xs data' b all (w, inl o) e =
    subst (Took (is ++ bytes data' ∷ [])) (sym (write-open system data' b all o))
      (log-Took is (bytes data') b w o)
write-Took system is xs data' b all (w, inr h) e = cc (EndsLast-ended is (bytes data' ∷ xs) h e)

write_eof_to-Took :
    (p : Option (Text × ℕ × ℕ)) (is : List Input) (b : Backend)
    → b.written ≡ is
    → b.open_pipe ≡ true
    → Took (is ++ end ∷ []) (write_eof_to p true whole b)
write_eof_to-Took none is b w o = (ap (λ l. l ++ end ∷ []) w, inr (ended-snoc is))
write_eof_to-Took (some p) is b w o = log-Took is end b w o

pub write_eof-Took :
    (system : System) (is xs : List Input) (b : Backend)
    → TakesAll system
    → Took is b
    → EndsLast (is ++ end ∷ xs)
    → Took (is ++ end ∷ []) (write_eof system b)
unfolding write_eof
write_eof-Took system is xs b all (w, inl o) e =
    subst (λ q. Took (is ++ end ∷ []) (write_eof_to b.pty q (system b (4 ∷ [])) b)) (sym o)
      (subst (λ a. Took (is ++ end ∷ []) (write_eof_to b.pty true a b)) (sym (all b (4 ∷ [])))
        (write_eof_to-Took b.pty is b w o))
write_eof-Took system is xs b all (w, inr h) e = cc (EndsLast-ended is (end ∷ xs) h e)

-- Nothing was started, and what was sent is kept.
abbrev pub Waiting : List Input → Driver → Type 0
Waiting is d =
    (d.backend ≡ none)
    × (d.dropped ≡ [])
    × (map bytes d.pending_stdin ++ (if d.pending_eof then end ∷ [] else []) ≡ is)

-- One process was started, and took what was sent.
abbrev pub Running : List Input → Driver → Type 0
Running is d = (b : Backend) × (d.backend ≡ some b) × (d.dropped ≡ []) × Took is b

write_all-Took :
    (system : System) (chunks : List Text) (is : List Input) (b : Backend)
    → TakesAll system
    → b.written ≡ is
    → b.open_pipe ≡ true
    → ((write_all system chunks b).written ≡ is ++ map bytes chunks)
      × ((write_all system chunks b).open_pipe ≡ true)
unfolding write_all
write_all-Took system [] is b all w o = (w ∙ sym (append-nil is), o)
write_all-Took system (c ∷ chunks) is b all w o =
    let logged = write-open system c b all o in
    let (w2, o2) =
      write_all-Took system chunks (is ++ bytes c ∷ []) (write system c b) all
        (ap (λ x. x.written) logged ∙ ap (λ l. l ++ bytes c ∷ []) w)
        (ap (λ x. x.open_pipe) logged ∙ o) in
    (w2 ∙ append_assoc is (bytes c ∷ []) (map bytes chunks), o2)

pub flush-Running :
    (system : System) (is : List Input) (b : Backend) (d : Driver)
    → TakesAll system
    → d.dropped ≡ []
    → map bytes d.pending_stdin ++ (if d.pending_eof then end ∷ [] else []) ≡ is
    → b.written ≡ []
    → b.open_pipe ≡ true
    → EndsLast is
    → Running is (flush_pending_stdin system b d)
unfolding flush_pending_stdin
flush-Running system is b d takes none_dropped kept w o e =
    let (w1, o1) = write_all-Took system d.pending_stdin [] b takes w o in
    elim (Bool-cases d.pending_eof) [
      | inl t ↦
          let all : map bytes d.pending_stdin ++ end ∷ [] ≡ is = rw t at kept in
          let took =
            write_eof-Took system (map bytes d.pending_stdin) []
              (write_all system d.pending_stdin b) takes (w1, inl o1)
              (subst EndsLast (sym all) e) in
          (
            write_eof system (write_all system d.pending_stdin b),
            ap (λ p. some (write_eof_if system p (write_all system d.pending_stdin b))) t,
            none_dropped,
            subst (λ x. Took x (write_eof system (write_all system d.pending_stdin b))) all took,
          )
      | inr t ↦
          let all : map bytes d.pending_stdin ++ [] ≡ is = rw t at kept in
          (
            write_all system d.pending_stdin b,
            ap (λ p. some (write_eof_if system p (write_all system d.pending_stdin b))) t,
            none_dropped,
            (w1 ∙ sym (append-nil (map bytes d.pending_stdin)) ∙ all, inl o1),
          )
    ]
