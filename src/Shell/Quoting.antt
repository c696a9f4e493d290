-- ===== src/Shell/Quoting.antt =====
-- A shell that reads the command back has the arguments, whatever characters they hold.
use mathlib.Core.Option
use cross_host_ops.Base.{
  ℕ, ◌≡◌, refl, sym, ap, ◌∙◌, inl, inr, true, false, List, [], ◌∷◌, ◌++◌, some, arith, ◌==◌, ==_iff,
  Text, quote, backslash, append_assoc, append-nil, Bool-cases, all,
}
use cross_host_ops.Shell.{
  space, escape_quotes, in_quotes, shell_quote, later_args, build_remote_command, is_word_char,
  is_safe_shell_command_word, build_interactive_shell_command,
}
use cross_host_ops.Shell.Words.{
  between, in_word, quoted, escaped, read_char, read_words, shell_words, read_words-next,
  read_words-next,
}

-- Inside quotes the escaped text is read back, and the closing quote ends it.
pub read_words-escaped :
    (w s rest : Text)
    → read_words (quoted w) (escape_quotes s ++ quote ∷ rest) ≡ read_words (in_word (w ++ s)) rest
unfolding escape_quotes read_char
read_words-escaped w [] rest =
    read_words-next (quoted w) (in_word w) quote rest refl
    ∙ ap (λ v. read_words (in_word v) rest) (sym (append-nil w))
read_words-escaped w (c ∷ s) rest =
    let back = escape_quotes s ++ quote ∷ rest in
    let later =
      read_words-escaped (w ++ c ∷ []) s rest
      ∙ ap (λ v. read_words (in_word v) rest) (append_assoc w (c ∷ []) s) in
    elim (Bool-cases (c == quote)) [
      | inl q ↦
          let same = (==_iff c quote).0 q in
          rw q (
            read_words-next (quoted w) (in_word w) quote (backslash ∷ quote ∷ quote ∷ back) refl
            ∙ (read_words-next (in_word w) (escaped w) backslash (quote ∷ quote ∷ back) refl
                ∙ (read_words-next (escaped w) (in_word (w ++ quote ∷ [])) quote (quote ∷ back) refl
                    ∙ (read_words-next (in_word (w ++ quote ∷ [])) (quoted (w ++ quote ∷ [])) quote
                          back refl
                        ∙ (ap (λ k. read_words (quoted (w ++ k ∷ [])) back) (sym same) ∙ later)))))
      | inr other ↦
          rw other
            (read_words-next (quoted w) (quoted (w ++ c ∷ [])) c back (rw other refl) ∙ later)
    ]

-- A quoted argument opens a word and leaves the shell inside it.
pub read_words-in_quotes :
    (s rest : Text)
    → read_words between (in_quotes (escape_quotes s) ++ rest) ≡ read_words (in_word s) rest
unfolding in_quotes read_char
read_words-in_quotes s rest =
    read_words-next between (quoted []) quote _ refl
    ∙ (ap (read_words (quoted [])) (append_assoc (escape_quotes s) (quote ∷ []) rest)
        ∙ read_words-escaped [] s rest)

pub read_words-shell_quote :
    (s rest : Text) → read_words between (shell_quote s ++ rest) ≡ read_words (in_word s) rest
unfolding shell_quote
read_words-shell_quote [] rest = read_words-in_quotes [] rest
read_words-shell_quote (c ∷ s) rest = read_words-in_quotes (c ∷ s) rest

pub read_words-later_args :
    (w : Text) (argv : List Text) → read_words (in_word w) (later_args argv) ≡ some (w ∷ argv)
unfolding later_args read_words
read_words-later_args w [] = refl
read_words-later_args w (arg ∷ argv) =
    ap (Option.map (λ words. w ∷ words))
      (read_words-shell_quote arg (later_args argv) ∙ read_words-later_args arg argv)

-- A shell that reads the command has exactly the arguments, none of them split, joined or
-- expanded, whatever characters they hold.
pub words-build_remote_command :
    (argv : List Text) → shell_words (build_remote_command argv) ≡ some argv
unfolding shell_words build_remote_command
words-build_remote_command [] = refl
words-build_remote_command (arg ∷ argv) =
    read_words-shell_quote arg (later_args argv) ∙ read_words-later_args arg argv

apart : (c d : ℕ) → is_word_char d ≡ false → is_word_char c ≡ true → (c == d) ≡ false
apart c d n h = elim (Bool-cases (c == d)) [
  | inr other ↦ other
  | inl same ↦ let e = ap is_word_char ((==_iff c d).0 same) in cc (h, n, e)
]

read_char-plain :
    (w : Text) (c : ℕ)
    → is_word_char c ≡ true
    → (read_char (in_word w) c ≡ some (in_word (w ++ c ∷ []), []))
      × (read_char between c ≡ some (in_word (c ∷ []), []))
unfolding read_char
read_char-plain w c h =
    rw (apart c space refl h, apart c quote refl h, apart c backslash refl h, h) (refl, refl)

-- Word characters stand for themselves.
pub read_words-plain :
    (w s rest : Text)
    → all is_word_char s ≡ true
    → read_words (in_word w) (s ++ rest) ≡ read_words (in_word (w ++ s)) rest
read_words-plain w [] rest h = ap (λ v. read_words (in_word v) rest) (sym (append-nil w))
read_words-plain w (c ∷ s) rest h =
    let parts : (is_word_char c ≡ true) × (all is_word_char s ≡ true) = ground arith in
    read_words-next (in_word w) (in_word (w ++ c ∷ [])) c (s ++ rest)
      (read_char-plain w c parts.0).0
    ∙ (read_words-plain (w ++ c ∷ []) s rest parts.1
        ∙ ap (λ v. read_words (in_word v) rest) (append_assoc w (c ∷ []) s))

pub read_words-safe :
    (s rest : Text)
    → is_safe_shell_command_word s ≡ true
    → read_words between (s ++ rest) ≡ read_words (in_word s) rest
unfolding is_safe_shell_command_word
read_words-safe [] rest h = cc
read_words-safe (c ∷ s) rest h =
    let parts : (is_word_char c ≡ true) × (all is_word_char s ≡ true) = ground arith in
    read_words-next between (in_word (c ∷ [])) c (s ++ rest) (read_char-plain [] c parts.0).1
    ∙ read_words-plain (c ∷ []) s rest parts.1

-- A shell that reads the interactive command has exactly the arguments too, though a first word of
-- word characters is left bare.
pub words-build_interactive_shell_command :
    (argv : List Text) → shell_words (build_interactive_shell_command argv) ≡ some argv
unfolding shell_words build_interactive_shell_command
words-build_interactive_shell_command [] = refl
words-build_interactive_shell_command (arg ∷ argv) =
    elim (Bool-cases (is_safe_shell_command_word arg)) [
      | inl safe ↦
          rw safe (read_words-safe arg (later_args argv) safe ∙ read_words-later_args arg argv)
      | inr other ↦
          rw other (read_words-shell_quote arg (later_args argv) ∙ read_words-later_args arg argv)
    ]
