-- ===== src/ShellCopy/Tests.antt =====
-- A download of five bytes that is read in one piece, and one that stalls behind two of them.
use mathlib.Core.List.{flatten}
use cross_host_ops.Base.{
  inl, ◌≡◌, refl, false, arith, List, [], ◌∷◌, ◌++◌, map, none, some, ok, err, codes, to_decimal,
}
use cross_host_ops.Sentinel.{find_subslice}
use cross_host_ops.Shell.{shell_quote}
use cross_host_ops.Download.{
  Store, CopyFrame, End, offset_mismatch, resume_ctx, read_download_sidecar,
}
use cross_host_ops.Download
use cross_host_ops.Download.Resume.{Kept}
use cross_host_ops.ShellCopy.{
  from_entries, Run, PtyShell, timed_out, parse_stat, base64_read_command, is_stall_class,
  file_frame,
}
use cross_host_ops.ShellCopy.Copy.{CopySpec, copy}
use cross_host_ops.ShellCopy.Attempt.{Offers}
use cross_host_ops.ShellCopy.Stalled.{
  Receives, copy_Receives, copy_stalled_loses, copy_stalled_refused,
}

abbrev shell : Run → PtyShell
shell answer = record {
  run_command_plain = λ command. (codes "XHO_FILE\n" ∷ [], ok 0);
  run_command_raw = λ command. (codes "644 100 5\n" ∷ [], ok 0);
  run_command_raw_b64 = λ command size. answer;
}

abbrev spec : CopySpec
spec = record {
  remote_path = codes "/var/log/app.log";
  source_name = codes "app.log";
  recursive = false;
  resume = [];
}

abbrev nothing_here : Store
nothing_here = record { files = []; sidecars = [] }

offers : (answer : Run) → Offers spec.remote_path 5 100 (shell answer)
unfolding parse_stat flatten find_subslice
offers answer = record {
  kind = codes "XHO_FILE\n";
  is_file = refl;
  no_directory = refl;
  raw = refl;
  stat = codes "644 100 5\n";
  printed = refl;
  parsed = refl;
}

copy_Receives_example :
    Receives
      (λ p. false)
      (codes "app.log")
      spec
      (codes "hello")
      nothing_here
      (copy (some (shell (codes "he" ∷ (codes "llo" ∷ []), ok 0))) none spec)
unfolding flatten
copy_Receives_example =
    copy_Receives (λ p. false) (codes "app.log") nothing_here spec 5 100
      (shell (codes "he" ∷ (codes "llo" ∷ []), ok 0)) none (codes "he" ∷ (codes "llo" ∷ [])) refl
      (offers (codes "he" ∷ (codes "llo" ∷ []), ok 0)) refl (codes "644 100 5\n" ∷ [], 0, refl)

copy_stalled_loses_example :
    Receives
      (λ p. false)
      (codes "app.log")
      spec
      (codes "llo")
      nothing_here
      (copy
        (some (shell (codes "he" ∷ [], err timed_out)))
        (some (shell (codes "llo" ∷ [], ok 0)))
        spec)
unfolding flatten is_stall_class
copy_stalled_loses_example =
    copy_stalled_loses (λ p. false) (codes "app.log") nothing_here spec 5 100
      (shell (codes "he" ∷ [], err timed_out)) (shell (codes "llo" ∷ [], ok 0)) (codes "he" ∷ [])
      (codes "llo" ∷ []) timed_out refl refl (omega arith) (omega arith)
      (offers (codes "he" ∷ [], err timed_out)) refl (offers (codes "llo" ∷ [], ok 0)) refl
      (codes "644 100 5\n" ∷ [], 0, refl)

resumed_read :
    base64_read_command (codes "/tmp/a b.bin") 10
    ≡ codes "tail -c +11 '/tmp/a b.bin' | base64 2>/dev/null"
unfolding base64_read_command to_decimal shell_quote
resumed_read = refl

copy_stalled_refused_example :
    (fs : List CopyFrame) × (rest : List CopyFrame) × ((copy
        (some (shell (codes "he" ∷ [], err timed_out)))
        (some (shell (codes "llo" ∷ [], ok 0)))
        spec).frames
      ≡ map file_frame (fs ++ rest))
    × ((more : List CopyFrame) (end : End)
        → Kept offset_mismatch (codes "app.log") (codes "web") spec.remote_path (codes "he") (
            Download.download
              (λ p. false)
              (codes "app.log")
              (codes "web")
              spec.remote_path
              spec.source_name
              (fs ++ more)
              end
              nothing_here))
unfolding flatten is_stall_class resume_ctx read_download_sidecar from_entries
copy_stalled_refused_example =
    copy_stalled_refused (λ p. false) (codes "app.log") (codes "web") nothing_here spec 5 100
      (shell (codes "he" ∷ [], err timed_out)) (shell (codes "llo" ∷ [], ok 0)) 0 []
      (codes "he" ∷ []) (codes "llo" ∷ []) timed_out refl (inl (refl, refl)) refl (omega arith)
      (omega arith) (λ e. absurd (omega (arith, e))) (offers (codes "he" ∷ [], err timed_out)) refl
      (offers (codes "llo" ∷ [], ok 0)) refl (codes "644 100 5\n" ∷ [], 0, refl)
