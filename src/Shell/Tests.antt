-- ===== src/Shell/Tests.antt =====
-- Runs of the command builders, and the theorems at a hostile argument.
use cross_host_ops.Base.{◌≡◌, refl, List, [], ◌∷◌, ◌++◌, some, Text, codes, quote, backslash}
use cross_host_ops.Shell.{
  build_remote_command, wrap_in_shell, shell_basename, shell_flags, shell_quote,
}
use cross_host_ops.Shell.Words.{shell_words}
use cross_host_ops.Shell.Quoting.{words-build_remote_command}

-- `it's` and `$(x) ; y`
abbrev argv : List Text
argv = codes "echo" ∷ (codes "it" ++ quote ∷ codes "s") ∷ codes "$(x) ; y" ∷ [] ∷ []

quoted_word :
    shell_quote (codes "a" ++ quote ∷ codes "b")
    ≡ quote ∷ codes "a" ++ (quote ∷ backslash ∷ quote ∷ quote ∷ codes "b") ++ quote ∷ []
unfolding shell_quote
quoted_word = refl

bash_path :
    wrap_in_shell (codes "echo hi") (codes "/usr/bin/bash")
    ≡ codes "bash -ic " ++ (quote ∷ codes "echo hi") ++ quote ∷ []
unfolding wrap_in_shell shell_basename shell_flags
bash_path = refl

words-build_remote_command_example : shell_words (build_remote_command argv) ≡ some argv
words-build_remote_command_example = words-build_remote_command argv
