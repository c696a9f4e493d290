-- ===== src/PtyShell.antt =====
-- The command runner for raw mode of src/daemon/jumpserver_engine.rs: `run_command_raw_impl` with
-- `feed_raw_chunk`, and the prompt detection in front of it.
--
-- The channel is the list of the chunks that it will deliver, and it closes behind the last one; a
-- read that times out ends a run in the same way. Writing to the channel succeeds. What goes to the
-- `sender` is one text. The suffixes of a prompt are ASCII, so a tail ends with one whether it was
-- decoded before or not.
pub mod Begin
pub mod Raw
pub mod Run
pub mod Plain
pub mod Cooked
mod Tests
mod PlainTests
use cross_host_ops.Base.{
  ℕ, zero, suc, ◌+◌, ◌-◌, ◌*◌, Bool, true, false, ◌&&◌, List, [], ◌∷◌, ◌++◌, Option, none, some,
  length, drop, any, ltb, ◌==◌, if◌then◌else◌, Result, ok, err, ◌>>=◌, Text, text_eq, is_empty,
  contains_char, newline, carriage_return,
}
use cross_host_ops.Base64
use cross_host_ops.Base64.{Decoder, finish_decoder}
use cross_host_ops.Sentinel
use cross_host_ops.Sentinel.{Scanner, find_subslice}

-- `rsplit('\n').next()`
pub last_line : Text → Text
last_line [] = []
last_line (c ∷ s) = if contains_char newline (c ∷ s) then last_line s else c ∷ s

-- `trim_end_matches('\r')`
pub trim_returns : Text → Text
trim_returns [] = []
trim_returns (c ∷ s) =
    let rest = trim_returns s in if is_empty rest && c == carriage_return then [] else c ∷ rest

abbrev pub ends_with : Text → Text → Bool
ends_with suffix s = text_eq (drop (length s - length suffix) s) suffix

unfoldable pub looks_like_prompt : Text → List Text → Bool
unfolding last_line trim_returns
looks_like_prompt buffer suffixes =
    let tail = trim_returns (last_line buffer) in any (λ suffix. ends_with suffix tail) suffixes

pub clear_prompt_remainder : List Text → Text → Text
unfolding looks_like_prompt
clear_prompt_remainder suffixes pending = if looks_like_prompt pending suffixes then [] else pending

pub data Error : Type 0 where
  payload : Base64.Error → Error
  closed : Error

-- A tail of twice the marker's length is kept.
abbrev pub shorten : ℕ → Text → Text
shorten marker buf =
    if ltb (marker * 2) (length buf) then drop (length buf - marker * 2) buf else buf

-- Phase 1: what stands behind the begin marker in the chunk that completes it, and the chunks that
-- were not read. The first text is what is kept of the chunks before.
pub discard : Text → Text → List Text → Option (Text × List Text)
discard begin buf [] = none
discard begin buf (chunk ∷ chunks) =
    let held = buf ++ chunk in
    elim (find_subslice held begin) [
      | some pos ↦ some (drop (pos + length begin) held, chunks)
      | none ↦ discard begin (shorten (length begin) held) chunks
    ]

pub record Fed : Type 0 where
  pub decoder : Option Decoder
  pub scanner : Scanner
  pub sent : Text
  pub code : Option ℕ

abbrev pub code_of : Scanner → Option ℕ
code_of s = if s.done then some s.exit_code else none

-- The chunk is decoded where there is a decoder, and forwarded by the scanner where not.
pub feed_raw_chunk : Text → Option Decoder → Scanner → Result Base64.Error Fed
feed_raw_chunk chunk none s =
    let (s', forward) = Sentinel.feed s chunk in
    ok (record { decoder = none; scanner = s'; sent = forward; code = code_of s' })
feed_raw_chunk chunk (some d) s = Base64.feed d chunk >>= λ (d', decoded).
    let s' = (Sentinel.feed s chunk).0 in
    ok (record { decoder = some d'; scanner = s'; sent = decoded; code = code_of s' })

pub record Finished : Type 0 where
  pub exit_code : ℕ
  pub pending : Text
  pub unread : List Text

-- What was sent, and how the run ended.
abbrev pub Run : Type 0
Run = Text × Result Error Finished

-- `if let Some(d) = decoder.as_ref() { d.finish()?; }`
pub finish_decoded : Option Decoder → Finished → Result Error Finished
finish_decoded none f = ok f
finish_decoded (some d) f = elim (finish_decoder d) [ ok u ↦ ok f | err e ↦ err (payload e) ]

-- The end marker was found: the leftover is kept, and the decoder must have had all its bytes.
pub finish_run : Fed → ℕ → List Text → Run
finish_run fed code unread =
    let f : Finished = record {
      exit_code = code;
      pending = fed.scanner.leftover;
      unread = unread;
    } in
    (fed.sent, finish_decoded fed.decoder f)

abbrev pub then_send : Text → Run → Run
then_send out (sent, r) = (out ++ sent, r)

-- Phase 2.
pub pump : Option Decoder → Scanner → List Text → Run
unfolding feed_raw_chunk finish_run
pump d s [] = ([], err closed)
pump d s (chunk ∷ chunks) = elim (feed_raw_chunk chunk d s) [
  | err e ↦ ([], err (payload e))
  | ok fed ↦ elim fed.code [
    | some code ↦ finish_run fed code chunks
    | none ↦ then_send fed.sent (pump fed.decoder fed.scanner chunks)
  ]
]

-- The whole run behind the command line, with `pending` left from before.
pub run_raw : List Text → Text → Text → Text → Option Decoder → List Text → Run
unfolding discard pump clear_prompt_remainder
run_raw suffixes pending begin end decoder chunks = elim (discard begin [] chunks) [
  | none ↦ ([], err closed)
  | some (after, later) ↦
      let held = clear_prompt_remainder suffixes pending ++ after in
      pump decoder (Sentinel.new end) (if is_empty held then later else held ∷ later)
]
