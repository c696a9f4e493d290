-- ===== src/Shell.antt =====
-- Shell command construction: src/daemon/shell.rs and the module `quote` of src/filepath.rs.
-- Text is a list of code points.
pub mod Words
pub mod Quoting
pub mod Wrapping
mod Tests
use cross_host_ops.Base.{
  ℕ, ◌+◌, Bool, true, false, not, ◌&&◌, ◌||◌, List, [], ◌∷◌, ◌++◌, map, Option, none, some, length,
  ltb, leb, ◌==◌, if◌then◌else◌, Text, codes, is_empty, is_alphanumeric, text_eq, all,
  contains_text, quote, backslash,
}

abbrev pub space : ℕ
space = b' '

-- `arg.replace('\'', "'\\''")`
pub escape_quotes : Text → Text
escape_quotes [] = []
escape_quotes (c ∷ s) =
    let rest = escape_quotes s in
    if c == quote then quote ∷ backslash ∷ quote ∷ quote ∷ rest else c ∷ rest

-- `format!("'{escaped}'")`
pub in_quotes : Text → Text
in_quotes escaped = quote ∷ (escaped ++ quote ∷ [])

unfoldable pub shell_quote : Text → Text
unfolding escape_quotes in_quotes
shell_quote arg = if is_empty arg then quote ∷ quote ∷ [] else in_quotes (escape_quotes arg)

-- The rounds of the loop with `index > 0`.
pub later_args : List Text → Text
unfolding shell_quote
later_args [] = []
later_args (arg ∷ argv) = space ∷ (shell_quote arg ++ later_args argv)

pub build_remote_command : List Text → Text
unfolding later_args
build_remote_command [] = []
build_remote_command (arg ∷ argv) = shell_quote arg ++ later_args argv

abbrev pub is_word_char : ℕ → Bool
is_word_char c =
    is_alphanumeric c || (c == b'_' || (c == b'-' || (c == b'.' || (c == b'/' || c == b'+'))))

pub is_safe_shell_command_word : Text → Bool
is_safe_shell_command_word arg = not (is_empty arg) && all is_word_char arg

pub build_interactive_shell_command : List Text → Text
unfolding later_args is_safe_shell_command_word
build_interactive_shell_command [] = []
build_interactive_shell_command (arg ∷ argv) =
    (if is_safe_shell_command_word arg then arg else shell_quote arg) ++ later_args argv

-- `rsplit(['/', '\\']).next()`: what stands behind the last separator.
pub last_part : Text → Text → Text
last_part part [] = part
last_part part (c ∷ s) = last_part (if c == b'/' || c == backslash then [] else part ++ c ∷ []) s

pub shell_basename : Text → Text
unfolding last_part
shell_basename name = let base = last_part [] name in if is_empty base then name else base

abbrev to_ascii_lowercase : Text → Text
to_ascii_lowercase = map (λ c. if leb b'A' c && leb c b'Z' then c + 32 else c)

pub shell_flags : Text → Text
shell_flags name =
    if contains_text (codes "bash" ∷ codes "bash.exe" ∷ codes "zsh" ∷ codes "zsh.exe" ∷ [])
      (to_ascii_lowercase (shell_basename name))
    then codes "-ic"
    else codes "-c"

-- `format!("{basename} {flags} '{escaped}'")`
pub wrap_in_shell : Text → Text → Text
unfolding in_quotes escape_quotes
wrap_in_shell inner_cmd shell_name =
    shell_basename shell_name
    ++ space ∷ (shell_flags shell_name ++ space ∷ in_quotes (escape_quotes inner_cmd))

pub build_final_command : List Text → Text → Text
build_final_command argv shell =
    if is_empty shell
    then build_remote_command argv
    else wrap_in_shell (build_interactive_shell_command argv) shell

-- `if shell.is_empty() { None } else { Some(shell) }`
abbrev named : Text → Option Text
named shell = if is_empty shell then none else some shell

abbrev or_defaults : Option Text → Text → Option Text
or_defaults none defaults = named defaults
or_defaults (some shell) defaults = named shell

abbrev or_server : Option Text → Option Text → Text → Option Text
or_server none server defaults = or_defaults server defaults
or_server (some name) server defaults = if text_eq name (codes "false") then none else some name

pub resolve_shell : Option Text → Bool → Option Text → Text → Option Text
resolve_shell cli_shell no_shell server_shell defaults_shell =
    if no_shell then none else or_server cli_shell server_shell defaults_shell
