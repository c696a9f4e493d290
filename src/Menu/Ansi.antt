-- ===== src/Menu/Ansi.antt =====
-- What `strip_ansi` leaves of a text, and where it panics.
use cross_host_ops.Base.{
  ℕ, zero, suc, ◌-◌, ◌≤◌, ◌<◌, ◌≡◌, ◌≢◌, ◌⊎◌, refl, sym, ap, ◌∙◌, true, false, [], ◌∷◌, ◌++◌, ◌==◌,
  ltb, lt→ltb, ltb→lt, List, Result, ok, err, Text, All, append-nil, append_assoc, Bool-cases, inl,
  inr, arith, backslash,
}
use cross_host_ops.Menu.{
  Error, panicked, escape_char, Byte, len_utf8, continuing, as_bytes, plain, left_in, csi, osc,
  next_osc, ends_csi, next, push, emit, strip_from, strip_ansi,
}

-- The last byte of a control sequence.
abbrev pub IsFinal : ℕ → Type 0
IsFinal c = (64 ≤ c) × (c ≤ 126)

abbrev pub IsParameter : ℕ → Type 0
IsParameter c = (c < 64) ⊎ (126 < c)

-- A character of a string of the system: no bell and no escape character.
abbrev pub IsInString : ℕ → Type 0
IsInString c = (c ≢ 7) × (c ≢ escape_char)

-- A text in which every sequence of a terminal is complete, and what is left without them: a control
-- sequence up to its last byte, a string of the system up to a bell or the string terminator, and an
-- escape character with one ASCII character.
pub data Ansi : Text → Text → Type 0 where
  done : Ansi [] []
  char : {s t : Text} (c : ℕ) → c ≢ escape_char → Ansi s t → Ansi (c ∷ s) (c ∷ t)
  control :
      {s t : Text} (params : Text) (c : ℕ)
      → All IsParameter params
      → IsFinal c
      → Ansi s t
      → Ansi (escape_char ∷ b'[' ∷ (params ++ c ∷ s)) t
  string_bell :
      {s t : Text} (title : Text)
      → All IsInString title
      → Ansi s t
      → Ansi (escape_char ∷ b']' ∷ (title ++ 7 ∷ s)) t
  string_end :
      {s t : Text} (title : Text)
      → All IsInString title
      → Ansi s t
      → Ansi (escape_char ∷ b']' ∷ (title ++ escape_char ∷ backslash ∷ s)) t
  two :
      {s t : Text} (c : ℕ) → c ≢ b'[' → c ≢ b']' → c < 128 → Ansi s t → Ansi (escape_char ∷ c ∷ s) t

final_ends : (c : ℕ) → IsFinal c → ends_csi c ≡ true
final_ends c (p, q) = ground arith

parameter_stays : (c : ℕ) → IsParameter c → ends_csi c ≡ false
parameter_stays c p = ground arith

string_stays : (c : ℕ) → IsInString c → next_osc c ≡ osc
string_stays c (p, q) = ground arith

len_one : (c : ℕ) → c < 128 → len_utf8 c - 1 ≡ 0
unfolding len_utf8
len_one c p = rw (lt→ltb c 128 p) refl

len_more : (c : ℕ) → 128 ≤ c → (n : ℕ) × (len_utf8 c - 1 ≡ suc n)
unfolding len_utf8
len_more c p = elim (Bool-cases (ltb c 128)) [
  | inl l ↦ absurd (omega (arith, ltb→lt c 128 l, p))
  | inr l ↦ rw l (elim (Bool-cases (ltb c 2048)) [
    | inl m ↦ rw m (0, refl)
    | inr m ↦
        rw m (elim (Bool-cases (ltb c 65536)) [ inl k ↦ rw k (1, refl) | inr k ↦ rw k (2, refl) ])
  ])
]

strip_from-left_in :
    (n : ℕ) (bs : List Byte) → strip_from (left_in n) (continuing n bs) ≡ strip_from plain bs
unfolding strip_from next emit
strip_from-left_in zero bs = refl
strip_from-left_in (suc n) bs = strip_from-left_in n bs

strip_from-char :
    (c : ℕ) (s : Text)
    → c ≢ escape_char
    → strip_from plain (as_bytes (c ∷ s)) ≡ push c (strip_from plain (as_bytes s))
unfolding strip_from next emit as_bytes
strip_from-char c s p =
    let other : (c == escape_char) ≡ false = ground arith in
    rw other (ap (push c) (strip_from-left_in (len_utf8 c - 1) (as_bytes s)))

strip_from-csi_skip :
    (n : ℕ) (bs : List Byte) → strip_from csi (continuing n bs) ≡ strip_from csi bs
unfolding strip_from next emit
strip_from-csi_skip zero bs = refl
strip_from-csi_skip (suc n) bs = strip_from-csi_skip n bs

strip_from-osc_skip :
    (n : ℕ) (bs : List Byte) → strip_from osc (continuing n bs) ≡ strip_from osc bs
unfolding strip_from next emit
strip_from-osc_skip zero bs = refl
strip_from-osc_skip (suc n) bs = strip_from-osc_skip n bs

-- Behind `ESC [`.
strip_from-csi :
    (params s : Text) (c : ℕ)
    → All IsParameter params
    → IsFinal c
    → strip_from csi (as_bytes (params ++ c ∷ s)) ≡ strip_from plain (as_bytes s)
unfolding strip_from next emit as_bytes
strip_from-csi [] s c h e = rw (final_ends c e, len_one c (omega (arith, e))) refl
strip_from-csi (x ∷ params) s c (p, h) e = rw (parameter_stays x p) (
    strip_from-csi_skip (len_utf8 x - 1) (as_bytes (params ++ c ∷ s))
    ∙ strip_from-csi params s c h e)

-- Behind `ESC ]`.
strip_from-osc :
    (title rest : Text)
    → All IsInString title
    → strip_from osc (as_bytes (title ++ rest)) ≡ strip_from osc (as_bytes rest)
unfolding strip_from next emit as_bytes
strip_from-osc [] rest h = refl
strip_from-osc (x ∷ title) rest (p, h) =
    rw (string_stays x p) (
      strip_from-osc_skip (len_utf8 x - 1) (as_bytes (title ++ rest)) ∙ strip_from-osc title rest h)

push_all : Text → Result Error Text → Result Error Text
push_all [] r = r
push_all (c ∷ t) r = push c (push_all t r)

push_all-ok : (t u : Text) → push_all t (ok u) ≡ ok (t ++ u)
unfolding push_all
push_all-ok [] u = refl
push_all-ok (c ∷ t) u = ap (push c) (push_all-ok t u)

push_all-err : (t : Text) (e : Error) → push_all t (err e) ≡ err e
unfolding push_all
push_all-err [] e = refl
push_all-err (c ∷ t) e = ap (push c) (push_all-err t e)

-- In front of whatever comes, the loop leaves what it should.
strip_from-Ansi :
    {pre t : Text} (rest : Text)
    → Ansi pre t
    → strip_from plain (as_bytes (pre ++ rest)) ≡ push_all t (strip_from plain (as_bytes rest))
unfolding push_all strip_from next emit as_bytes
strip_from-Ansi rest done = refl
strip_from-Ansi rest (char {s} c p a) =
    strip_from-char c (s ++ rest) p ∙ ap (push c) (strip_from-Ansi rest a)
strip_from-Ansi rest (control {s} params c h e a) =
    ap (λ l. strip_from csi (as_bytes l)) (append_assoc params (c ∷ s) rest)
    ∙ strip_from-csi params (s ++ rest) c h e
    ∙ strip_from-Ansi rest a
strip_from-Ansi rest (string_bell {s} title h a) =
    ap (λ l. strip_from osc (as_bytes l)) (append_assoc title (7 ∷ s) rest)
    ∙ strip_from-osc title (7 ∷ s ++ rest) h
    ∙ strip_from-Ansi rest a
strip_from-Ansi rest (string_end {s} title h a) =
    ap (λ l. strip_from osc (as_bytes l)) (append_assoc title (escape_char ∷ backslash ∷ s) rest)
    ∙ strip_from-osc title (escape_char ∷ backslash ∷ s ++ rest) h
    ∙ strip_from-Ansi rest a
strip_from-Ansi rest (two {s} c n1 n2 p a) =
    let b1 : (c == b'[') ≡ false = ground arith in
    let b2 : (c == b']') ≡ false = ground arith in rw (b1, b2, len_one c p) (strip_from-Ansi rest a)

-- Behind an escape character, a character that is not ASCII.
strip_from-panics :
    (c : ℕ) (post : Text)
    → 128 ≤ c
    → strip_from plain (as_bytes (escape_char ∷ c ∷ post)) ≡ err panicked
unfolding strip_from next emit as_bytes
strip_from-panics c post p =
    let (n, e) = len_more c p in
    let b1 : (c == b'[') ≡ false = ground arith in
    let b2 : (c == b']') ≡ false = ground arith in rw (b1, b2, e) refl

-- Of a text in which all sequences are complete, everything else is left, also if it is not ASCII. If an escape character and a character that is not ASCII come behind it, the function
-- panics, whatever comes then.
pub strip_ansi-Ansi :
    (pre t post : Text) (c : ℕ)
    → Ansi pre t
    → 128 ≤ c
    → (strip_ansi pre ≡ ok t) × (strip_ansi (pre ++ escape_char ∷ c ∷ post) ≡ err panicked)
unfolding strip_ansi strip_from as_bytes
strip_ansi-Ansi pre t post c a p = (
  ap (λ l. strip_from plain (as_bytes l)) (sym (append-nil pre))
      ∙ strip_from-Ansi [] a
      ∙ push_all-ok t []
      ∙ ap ok (append-nil t),
  strip_from-Ansi (escape_char ∷ c ∷ post) a
      ∙ ap (push_all t) (strip_from-panics c post p)
      ∙ push_all-err t panicked,
)
