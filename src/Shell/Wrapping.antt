-- ===== src/Shell/Wrapping.antt =====
-- A command that is wrapped in a shell, and the choice of that shell.
use mathlib.Core.Option
use cross_host_ops.Base.{
  ◌≡◌, refl, sym, ap, ◌∙◌, ◌↔◌, ◌⊎◌, inl, Bool, true, false, [], ◌∷◌, ◌++◌, Option, none, some,
  arith, Text, codes, append-nil, text_eq_iff,
}
use cross_host_ops.Shell.{
  space, escape_quotes, in_quotes, is_safe_shell_command_word, shell_basename, shell_flags,
  wrap_in_shell, resolve_shell,
}
use cross_host_ops.Shell.Words.{between, read_words, shell_words, read_words-blank}
use cross_host_ops.Shell.Quoting.{read_words-safe, read_words-in_quotes}

shell_flags-safe : (name : Text) → is_safe_shell_command_word (shell_flags name) ≡ true
unfolding shell_flags is_safe_shell_command_word
shell_flags-safe name = ground arith

-- A wrapped command is three words, the shell, its flags and the command unchanged.
pub words-wrap_in_shell :
    (inner name : Text)
    → is_safe_shell_command_word (shell_basename name) ≡ true
    → shell_words (wrap_in_shell inner name)
      ≡ some (shell_basename name ∷ shell_flags name ∷ inner ∷ [])
unfolding shell_words wrap_in_shell read_words
words-wrap_in_shell inner name safe =
    let base = shell_basename name in
    let flags = shell_flags name in
    let body = in_quotes (escape_quotes inner) in
    let last : read_words between body ≡ some (inner ∷ []) =
      ap (read_words between) (sym (append-nil body)) ∙ read_words-in_quotes inner [] in
    let second : read_words between (flags ++ space ∷ body) ≡ some (flags ∷ inner ∷ []) =
      read_words-safe flags (space ∷ body) (shell_flags-safe name)
      ∙ (read_words-blank flags body ∙ ap (Option.map (λ words. flags ∷ words)) last) in
    read_words-safe base (space ∷ (flags ++ space ∷ body)) safe
    ∙ (read_words-blank base (flags ++ space ∷ body)
        ∙ ap (Option.map (λ words. base ∷ words)) second)

-- Where the shell comes from: nothing wraps the command exactly if `--no-shell` or
-- `--shell=false` says so, or no `--shell` is given and the server's own setting is empty, or it
-- has none and the defaults are empty.
resolve_shell-none :
    (cli : Option Text) (no_shell : Bool) (server : Option Text) (defaults : Text)
    → (resolve_shell cli no_shell server defaults ≡ none) ↔ (
        (no_shell ≡ true)
        ⊎ (cli ≡ some (codes "false"))
        ⊎ ((cli ≡ none) × ((server ≡ some []) ⊎ ((server ≡ none) × (defaults ≡ [])))))
unfolding resolve_shell
resolve_shell-none cli true server defaults = (λ e. inl refl, λ h. refl)
resolve_shell-none (some name) false server defaults = (
  λ e. ground (arith, text_eq_iff name (codes "false")),
  λ h. ground (arith, text_eq_iff name (codes "false")),
)
resolve_shell-none none false (some []) defaults = (λ e. ground arith, λ h. refl)
resolve_shell-none none false (some (c ∷ s)) defaults = (λ e. ground arith, λ h. ground arith)
resolve_shell-none none false none [] = (λ e. ground arith, λ h. refl)
resolve_shell-none none false none (c ∷ s) = (λ e. ground arith, λ h. ground arith)
