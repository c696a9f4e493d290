-- ===== src/PtyShell/Plain.antt =====
-- The command runner for cooked mode of src/daemon/jumpserver_engine.rs: `run_command_plain`, with
-- `drain_echo_line`, `prompt_output_split`, `extract_marker` and `strip_leading_shell_noise`.
--
-- `timely` is the number of chunks that come before the wait for the echo ends. The line with the
-- exit code is ASCII.
use cross_host_ops.Base.{
  ℕ, zero, suc, ◌+◌, ◌-◌, Bool, true, false, not, ◌&&◌, ◌||◌, List, [], ◌∷◌, ◌++◌, Option, none,
  some, length, drop, take, all, ltb, leb, ◌==◌, if◌then◌else◌, Result, ok, err, Text, codes,
  is_empty, is_digit, digits_value, ExitCode, non_negative, minus, newline, carriage_return,
  backslash, trim,
}
use cross_host_ops.Sentinel.{find_subslice}
use cross_host_ops.PtyShell.{last_line, looks_like_prompt, clear_prompt_remainder, Error, closed}

pub data NoiseMode : Type 0 where
  start escape csi osc osc_escape : NoiseMode

abbrev pub noise_osc : ℕ → NoiseMode
noise_osc c = if c == 7 then start else if c == 27 then osc_escape else osc

pub noise_next : NoiseMode → ℕ → NoiseMode
noise_next start c = if c == 27 then escape else start
noise_next escape c = if c == b'[' then csi else osc
noise_next csi c = if leb 64 c && leb c 126 then start else csi
noise_next osc c = noise_osc c
noise_next osc_escape c = if c == backslash then start else noise_osc c

abbrev pub or_whole : Text → Option Text → Text
or_whole whole none = whole
or_whole whole (some rest) = rest

abbrev pub is_break : ℕ → Bool
is_break c = c == carriage_return || c == newline

-- What a character comes to, with what comes of the rest: a sequence that does not end is none, and
-- then nothing of it is taken away.
pub noise_char : NoiseMode → ℕ → Text → Option Text → Option Text
noise_char start c s rest =
    if is_break c then rest else if c == 27 then some (or_whole (c ∷ s) rest) else some (c ∷ s)
noise_char escape c s rest = if c == b'[' || c == b']' then rest else none
noise_char csi c s rest = rest
noise_char osc c s rest = rest
noise_char osc_escape c s rest = rest

pub noise_end : NoiseMode → Option Text
noise_end start = some []
noise_end escape = none
noise_end csi = none
noise_end osc = none
noise_end osc_escape = none

pub skip_noise : NoiseMode → Text → Option Text
unfolding noise_next noise_char noise_end
skip_noise m [] = noise_end m
skip_noise m (c ∷ s) = let rest = skip_noise (noise_next m c) s in noise_char m c s rest

unfoldable pub strip_leading_shell_noise : Text → Text
unfolding skip_noise
strip_leading_shell_noise s = or_whole s (skip_noise start s)

unfoldable pub prompt_output_split : Text → List Text → Option ℕ
unfolding last_line looks_like_prompt
prompt_output_split buffer suffixes =
    if looks_like_prompt buffer suffixes
    then some (length buffer - length (last_line buffer))
    else none

abbrev pub signed : Bool → ℕ → Option ExitCode
signed false n = if leb n 2_147_483_647 then some (non_negative n) else none
signed true zero = some (non_negative 0)
signed true (suc n) = if leb (suc n) 2_147_483_648 then some (minus (suc n)) else none

abbrev pub i32_digits : Bool → Text → Option ExitCode
i32_digits negative s =
    if not (is_empty s) && all is_digit s then signed negative (digits_value s) else none

-- `i32::from_str`
unfoldable pub parse_i32 : Text → Option ExitCode
parse_i32 [] = none
parse_i32 (c ∷ s) =
    if c == b'-'
    then i32_digits true s
    else if c == b'+'
    then i32_digits false s
    else i32_digits false (c ∷ s)

abbrev pub or_zero : Option ExitCode → ExitCode
or_zero none = non_negative 0
or_zero (some code) = code

unfoldable pub up_to_newline : Text → Text
up_to_newline [] = []
up_to_newline (c ∷ s) = let rest = up_to_newline s in if c == newline then [] else c ∷ rest

abbrev pub code_behind : Text → Text → Text → ExitCode × Text
code_behind buf before [] = (non_negative 0, buf)
code_behind buf before (c ∷ s) =
    if c == b':'
    then (or_zero (parse_i32 (trim (up_to_newline s))), before)
    else (non_negative 0, buf)

unfoldable pub extract_marker : Text → Text → ExitCode × Text
unfolding parse_i32 up_to_newline
extract_marker buf marker = elim (find_subslice buf marker) [
  | none ↦ (non_negative 0, buf)
  | some pos ↦ code_behind buf (take pos buf) (drop (pos + length marker) buf)
]

unfoldable pub behind_newline : Text → Option Text
behind_newline [] = none
behind_newline (c ∷ s) = let rest = behind_newline s in if c == newline then some s else rest

-- What is pending then, and the chunks that are left.
unfoldable pub drain_echo_line : ℕ → Text → List Text → Text × List Text
unfolding behind_newline
drain_echo_line timely pending [] = (or_whole pending (behind_newline pending), [])
drain_echo_line timely pending (chunk ∷ chunks) =
    let more = drain_echo_line (timely - 1) (pending ++ chunk) chunks in
    elim (behind_newline pending) [
      | some rest ↦ (rest, chunk ∷ chunks)
      | none ↦ if timely == 0 then (pending, chunk ∷ chunks) else more
    ]

pub record Finished : Type 0 where
  pub exit_code : ExitCode
  pub pending : Text
  pub unread : List Text

abbrev pub Run : Type 0
Run = Text × Result Error Finished

abbrev pub then_send : Text → Run → Run
then_send out (sent, r) = (out ++ sent, r)

abbrev pub output : Bool → Text → Text
output first data' = if first then strip_leading_shell_noise data' else data'

-- What is forwarded of a buffer with no prompt, what is kept, and if nothing was forwarded yet.
abbrev pub forward : ℕ → Bool → Text → Text × Text × Bool
forward keep first buf =
    if ltb keep (length buf)
    then (output first (take (length buf - keep) buf), drop (length buf - keep) buf, false)
    else ([], buf, first)

unfoldable pub finish_plain : Text → Bool → Text → ℕ → List Text → Run
unfolding extract_marker
finish_plain marker first buf at' unread =
    let (code, clean) = extract_marker (take at' buf) marker in
    (output first clean, ok (record { exit_code = code; pending = drop at' buf; unread = unread }))

unfoldable pub pump_plain : List Text → Text → Bool → Text → List Text → Run
unfolding prompt_output_split finish_plain
pump_plain suffixes marker first pending [] = ([], err closed)
pump_plain suffixes marker first pending (chunk ∷ chunks) =
    let buf = pending ++ chunk in
    let (sent, held, first') = forward (length marker + 32) first buf in
    let later = pump_plain suffixes marker first' held chunks in
    elim (prompt_output_split buf suffixes) [
      | some at' ↦ finish_plain marker first buf at' chunks
      | none ↦ then_send sent later
    ]

-- The line that is written for a command, and the run behind it.
unfoldable pub wrapped_command : Text → Text → Text
wrapped_command command marker =
    codes "{ "
    ++ (command ++ (codes "; }; status=$?; printf '" ++ (marker ++ codes ":%s\\n' \"$status\"")))

unfoldable pub run_command_plain : ℕ → List Text → Text → Text → List Text → Run
unfolding drain_echo_line pump_plain clear_prompt_remainder
run_command_plain timely suffixes marker pending chunks =
    let (held, later) = drain_echo_line timely (clear_prompt_remainder suffixes pending) chunks in
    pump_plain suffixes marker true held later
