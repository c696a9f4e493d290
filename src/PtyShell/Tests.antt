-- ===== src/PtyShell/Tests.antt =====
-- Runs in raw mode over a short channel.
use mathlib.Core.List.{flatten}
use cross_host_ops.Base.{
  ◌≡◌, refl, inl, List, [], ◌∷◌, ◌++◌, arith, Text, codes, newline, none, some,
}
use cross_host_ops.Base64.{
  new_decoder, new_encoder, encode_all, encode, encode_lines, finish, symbol,
}
use cross_host_ops.Base64.Standard.{standard_engine}
use cross_host_ops.PtyShell.{run_raw, clear_prompt_remainder, looks_like_prompt}
use cross_host_ops.PtyShell.Run.{run_raw-Delivers, run_raw-encode_all}

abbrev suffixes : List Text
suffixes = codes "$ " ∷ codes "# " ∷ []

-- The prompt before the begin marker `__B__`, and the next prompt behind the end marker `__E__`.
abbrev chunks : List Text
chunks =
    codes "sh-5$ __B"
    ∷ codes "__ok__"
    ∷ codes "E__:"
    ∷ (codes "7" ++ newline ∷ codes "sh")
    ∷ codes "-5$ "
    ∷ []

-- A prompt that was cut by the chunks of the run before is still pending, and is sent in front.
run_raw-Delivers_example :
    (run_raw suffixes (codes "sh-") (codes "__B__") (codes "__E__") none chunks).0 ≡ codes "sh-ok"
unfolding flatten clear_prompt_remainder looks_like_prompt
run_raw-Delivers_example =
    (run_raw-Delivers suffixes (codes "sh-") (codes "__B__") (codes "__E__") (codes "sh-5$ ")
      (codes "ok") (codes "7") (newline ∷ []) (codes "sh-5$ ") chunks (λ e. cc) (λ e. cc)
      (refl, (refl, (refl, (refl, (refl, (refl, tt)))))) (refl, (refl, (refl, (refl, (refl, tt)))))
      ((λ e. cc), (refl, tt)) (inl refl) refl).0

abbrev encoded : List Text
encoded =
    codes "# __B__aGV"
    ∷ (codes "sbG8=" ++ newline ∷ codes "_")
    ∷ (codes "_E__:0" ++ newline ∷ [])
    ∷ codes "# "
    ∷ []

run_raw-encode_all_example :
    (run_raw suffixes (codes "# ") (codes "__B__") (codes "__E__") (some (new_decoder 5)) encoded).0
    ≡ codes "hello"
unfolding flatten clear_prompt_remainder looks_like_prompt encode_all encode encode_lines finish
    new_encoder symbol
run_raw-encode_all_example =
    (run_raw-encode_all standard_engine suffixes (codes "# ") (codes "__B__") (codes "_E__")
      (codes "# ") (codes "0") (newline ∷ []) (codes "# ") (codes "he" ∷ codes "llo" ∷ []) encoded
      (λ e. cc) (refl, (refl, tt)) refl
      (refl, (refl, (refl, (refl, (refl, (refl, (refl, (refl, (refl, tt)))))))))
      ((λ e. cc), (refl, tt)) (inl refl) (omega arith) refl).0
