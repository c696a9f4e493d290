-- ===== src/PtyShell/Cooked.antt =====
-- A command in cooked mode whose output comes in one chunk with the prompt behind it.
use cross_host_ops.Base.{
  ExitCode, ℕ, suc, ◌-◌, ◌≡◌, ◌≢◌, refl, sym, ap, ap₂, ◌∙◌, true, false, List, [], ◌∷◌, ◌++◌, some,
  length, drop, any, All, ◌==◌, length-append, take-length-append, drop-length-append, append_assoc,
  append-nil, Bool-cases, inl, inr, ok, Text, arith, newline, contains_char, trim,
}
use cross_host_ops.Sentinel.Search.{FirstAt, find_subslice-at}
use cross_host_ops.PtyShell.{
  last_line, looks_like_prompt, clear_prompt_remainder, ends_with, trim_returns,
}
use cross_host_ops.PtyShell.Plain.{
  strip_leading_shell_noise, prompt_output_split, parse_i32, up_to_newline, code_behind,
  extract_marker, behind_newline, drain_echo_line, finish_plain, pump_plain, run_command_plain,
}

-- No newline stands in the text.
abbrev pub IsLine : Text → Type 0
IsLine s = All (λ c. (c == newline) ≡ false) s

contains_char-IsLine : (s : Text) → IsLine s → contains_char newline s ≡ false
contains_char-IsLine [] h = refl
contains_char-IsLine (c ∷ s) (p, h) = rw (p, contains_char-IsLine s h) refl

contains_char-append : (s p : Text) → contains_char newline (s ++ (newline ∷ p)) ≡ true
contains_char-append [] p = refl
contains_char-append (c ∷ s) p = elim (Bool-cases (c == newline)) [
  | inl e ↦ rw e refl
  | inr e ↦ rw (e, contains_char-append s p) refl
]

last_line-IsLine : (s : Text) → IsLine s → last_line s ≡ s
unfolding last_line
last_line-IsLine [] h = refl
last_line-IsLine (c ∷ s) h = rw (contains_char-IsLine (c ∷ s) h) refl

last_line-append : (s p : Text) → IsLine p → last_line (s ++ (newline ∷ p)) ≡ p
unfolding last_line
last_line-append [] p h = last_line-IsLine p h
last_line-append (c ∷ s) p h = rw (contains_char-append (c ∷ s) p) (last_line-append s p h)

up_to_newline-append : (s p : Text) → IsLine s → up_to_newline (s ++ (newline ∷ p)) ≡ s
unfolding up_to_newline
up_to_newline-append [] p h = refl
up_to_newline-append (c ∷ s) p (q, h) = rw (q, up_to_newline-append s p h) refl

behind_newline-append : (s p : Text) → IsLine s → behind_newline (s ++ (newline ∷ p)) ≡ some p
unfolding behind_newline
behind_newline-append [] p h = refl
behind_newline-append (c ∷ s) p (q, h) = rw (q, behind_newline-append s p h) refl

-- The marker is cut off with the line that it begins, and the code is read from that line.
extract_marker-line :
    (out marker status : Text) (code : ExitCode)
    → FirstAt marker out
    → marker ≢ []
    → IsLine status
    → parse_i32 (trim status) ≡ some code
    → extract_marker (out ++ (marker ++ (b':' ∷ (status ++ (newline ∷ []))))) marker ≡ (code, out)
unfolding extract_marker
extract_marker-line out marker status code f named h e =
    let line = b':' ∷ (status ++ (newline ∷ [])) in
    let buf = out ++ (marker ++ line) in
    let found =
      find_subslice-at marker line [] out buf f (append-nil buf)
        (omega (arith, length-append out (marker ++ line), length-append marker line)) named in
    let before = take-length-append out (marker ++ line) in
    let behind =
      ap₂ (λ n b. drop n b) (sym (length-append out marker)) (sym (append_assoc out marker line))
      ∙ drop-length-append (out ++ marker) line in
    rw (found, extract_marker)
      (ap₂ (λ b a. code_behind buf b a) before behind
        ∙ rw (up_to_newline-append status [] h, e) refl)

-- The output with its last line, and the prompt.
abbrev pub with_prompt : Text → Text → Text → Text → Text
with_prompt out marker status prompt =
    (out ++ (marker ++ (b':' ∷ (status ++ (newline ∷ []))))) ++ prompt

with_prompt-newline :
    (out marker status prompt : Text)
    → with_prompt out marker status prompt
      ≡ (out ++ (marker ++ (b':' ∷ status))) ++ (newline ∷ prompt)
with_prompt-newline out marker status prompt =
    let front = out ++ (marker ++ (b':' ∷ status)) in
    ap (λ t. (out ++ t) ++ prompt) (sym (append_assoc marker (b':' ∷ status) (newline ∷ [])))
    ∙ (ap (λ t. t ++ prompt) (sym (append_assoc out (marker ++ (b':' ∷ status)) (newline ∷ [])))
        ∙ append_assoc front (newline ∷ []) prompt)

prompt_output_split-with_prompt :
    (suffixes : List Text) (out marker status prompt : Text)
    → IsLine prompt
    → looks_like_prompt prompt suffixes ≡ true
    → prompt_output_split (with_prompt out marker status prompt) suffixes
      ≡ some (length (out ++ (marker ++ (b':' ∷ (status ++ (newline ∷ []))))))
unfolding prompt_output_split looks_like_prompt
prompt_output_split-with_prompt suffixes out marker status prompt h looks =
    let buf = with_prompt out marker status prompt in
    let front = out ++ (marker ++ (b':' ∷ (status ++ (newline ∷ [])))) in
    let last =
      ap last_line (with_prompt-newline out marker status prompt)
      ∙ last_line-append (out ++ (marker ++ (b':' ∷ status))) prompt h in
    let looks' =
      ap (λ t. any (λ suffix. ends_with suffix (trim_returns t)) suffixes)
        (last ∙ sym (last_line-IsLine prompt h))
      ∙ looks in
    rw looks' (
      ap (λ t. some (length buf - length t)) last
      ∙ ap some (omega (arith, length-append front prompt)))

never : (n : ℕ) → (suc n == 0) ≡ false
never n = ground arith

drain_echo_line-IsLine :
    (timely : ℕ) (echo : Text) (later : List Text)
    → IsLine echo
    → drain_echo_line (suc timely) [] ((echo ++ (newline ∷ [])) ∷ later) ≡ ([], later)
unfolding drain_echo_line behind_newline
drain_echo_line-IsLine timely echo [] e = rw (never timely, behind_newline-append echo [] e) refl
drain_echo_line-IsLine timely echo (chunk ∷ later) e =
    rw (never timely, behind_newline-append echo [] e) refl

pump_plain-with_prompt :
    (suffixes : List Text) (out marker status prompt : Text) (code : ExitCode) (later : List Text)
    → FirstAt marker out
    → marker ≢ []
    → IsLine status
    → parse_i32 (trim status) ≡ some code
    → IsLine prompt
    → looks_like_prompt prompt suffixes ≡ true
    → pump_plain suffixes marker true [] (with_prompt out marker status prompt ∷ later) ≡ (
      strip_leading_shell_noise out,
      ok (record { exit_code = code; pending = prompt; unread = later }),
    )
unfolding pump_plain finish_plain
pump_plain-with_prompt suffixes out marker status prompt code later f named h p q looks =
    let front = out ++ (marker ++ (b':' ∷ (status ++ (newline ∷ [])))) in
    rw (prompt_output_split-with_prompt suffixes out marker status prompt q looks, pump_plain)
      (rw (take-length-append front prompt, drop-length-append front prompt)
        (rw (extract_marker-line out marker status code f named h p) refl))

-- On a shell at its prompt: if the echo of the command comes first, and then, in one chunk, the
-- output, a line with the marker and the status, and the prompt, then exactly the output is
-- forwarded, without the noise at its start; the exit code is what the line says, and the prompt is
-- kept for the next command.
pub run_command_plain_lem :
    (timely : ℕ) (suffixes : List Text) (pending echo out marker status prompt : Text)
    (code : ExitCode) (later : List Text)
    → looks_like_prompt pending suffixes ≡ true
    → IsLine echo
    → FirstAt marker out
    → marker ≢ []
    → IsLine status
    → parse_i32 (trim status) ≡ some code
    → IsLine prompt
    → looks_like_prompt prompt suffixes ≡ true
    → run_command_plain
        (suc timely)
        suffixes
        marker
        pending
        ((echo ++ (newline ∷ [])) ∷ with_prompt out marker status prompt ∷ later)
      ≡ (
        strip_leading_shell_noise out,
        ok (record { exit_code = code; pending = prompt; unread = later }),
      )
unfolding run_command_plain clear_prompt_remainder
run_command_plain_lem timely suffixes pending echo out marker status prompt code later ready e f
      named h p q looks =
    rw ready (
      ap (λ r. pump_plain suffixes marker true r.0 r.1)
        (drain_echo_line-IsLine timely echo (with_prompt out marker status prompt ∷ later) e)
      ∙ pump_plain-with_prompt suffixes out marker status prompt code later f named h p q looks)
