-- ===== src/PtyShell/PlainTests.antt =====
-- Runs of the runner for cooked mode.
use cross_host_ops.Base.{
  ◌≡◌, refl, List, [], ◌∷◌, ◌++◌, ok, non_negative, Text, codes, newline, backslash, trim, arith,
}
use cross_host_ops.Sentinel.{find_subslice}
use cross_host_ops.PtyShell.{looks_like_prompt}
use cross_host_ops.PtyShell.Plain.{
  parse_i32, strip_leading_shell_noise, extract_marker, drain_echo_line, pump_plain,
  prompt_output_split, finish_plain, run_command_plain, wrapped_command,
}
use cross_host_ops.PtyShell.Cooked.{run_command_plain_lem}

abbrev marker : Text
marker = codes "_M_"

abbrev suffixes : List Text
suffixes = codes "$ " ∷ (codes "# " ∷ [])

abbrev prompt : Text
prompt = codes "$ "

abbrev answer : Text
answer = (codes "hi" ++ (marker ++ (b':' ∷ (codes "3" ++ (newline ∷ []))))) ++ prompt

run_command_plain_lem_example :
    run_command_plain 1 suffixes marker prompt ((codes "_" ++ (newline ∷ [])) ∷ answer ∷ [])
    ≡ (codes "hi", ok (record { exit_code = non_negative 3; pending = prompt; unread = [] }))
unfolding strip_leading_shell_noise looks_like_prompt trim parse_i32
run_command_plain_lem_example =
    run_command_plain_lem 0 suffixes prompt (codes "_") (codes "hi") marker (codes "3") prompt
      (non_negative 3) [] refl (refl, tt) (refl, (refl, tt)) (λ e. absurd (ground arith)) (refl, tt)
      refl (refl, (refl, tt)) refl

-- The prompt comes behind the last line, in two chunks, and is longer than the bytes that are kept:
-- the marker is forwarded as output, and the exit code 3 becomes 0.
long_prompt_hides_the_exit_code :
    run_command_plain 1 suffixes marker [] (
      (codes "{ false; }" ++ (newline ∷ []))
      ∷ (codes "_M_:3" ++ (newline ∷ []))
      ∷ codes "user@a-host-with-a-rather-long-name:~/work"
      ∷ codes "$ "
      ∷ [])
    ≡ (
      codes "_M_:3" ++ newline ∷ codes "user@a-",
      ok (record {
        exit_code = non_negative 0;
        pending = codes "host-with-a-rather-long-name:~/work$ ";
        unread = [];
      }),
    )
unfolding run_command_plain drain_echo_line pump_plain prompt_output_split finish_plain
    extract_marker looks_like_prompt find_subslice strip_leading_shell_noise trim
long_prompt_hides_the_exit_code = refl

line_for_a_command :
    wrapped_command (codes "x") (codes "M")
    ≡ codes "{ x; }; status=$?; printf 'M:%s"
      ++ backslash ∷ (codes "n' " ++ (b'"' ∷ (codes "$status" ++ (b'"' ∷ []))))
unfolding wrapped_command
line_for_a_command = refl
