-- ===== src/Shell/Words.antt =====
-- What a POSIX shell makes of a line, as far as it holds nothing but words: an independent
-- description, to which the quoting is held. Blanks separate words, single quotes keep everything
-- between them, a backslash keeps the next character, and a plain character stands for itself.
-- At any other unquoted character (a `$`, a `;`, a glob, a double quote) there is no answer.
use cross_host_ops.Base.{
  ℕ, ◌≡◌, refl, List, [], ◌∷◌, ◌++◌, Option, none, some, ◌==◌, if◌then◌else◌, Text, quote,
  backslash,
}
use mathlib.Core.Option
use cross_host_ops.Shell.{space, is_word_char}

pub data Mode : Type 0 where
  between : Mode
  in_word quoted escaped : Text → Mode

-- One character: the mode behind it, and the words that it ends.
unfoldable pub unquoted : Text → ℕ → Option (Mode × List Text)
unquoted w c =
    if c == quote
    then some (quoted w, [])
    else if c == backslash
    then some (escaped w, [])
    else if is_word_char c
    then some (in_word (w ++ c ∷ []), [])
    else none

unfoldable pub read_char : Mode → ℕ → Option (Mode × List Text)
unfolding unquoted
read_char between c = if c == space then some (between, []) else unquoted [] c
read_char (in_word w) c = if c == space then some (between, w ∷ []) else unquoted w c
read_char (quoted w) c =
    if c == quote then some (in_word w, []) else some (quoted (w ++ c ∷ []), [])
read_char (escaped w) c = some (in_word (w ++ c ∷ []), [])

unfoldable pub at_end : Mode → Option (List Text)
at_end between = some []
at_end (in_word w) = some (w ∷ [])
at_end (quoted w) = none
at_end (escaped w) = none

unfoldable pub read_words : Mode → Text → Option (List Text)
unfolding read_char at_end
read_words m [] = at_end m
read_words m (c ∷ s) = elim (read_char m c) [
  | none ↦ none
  | some (m', done) ↦ Option.map (λ words. done ++ words) (read_words m' s)
]

unfoldable pub shell_words : Text → Option (List Text)
unfolding read_words
shell_words = read_words between

map_id {ℓ} : {A : Type ℓ} (o : Option (List A)) → Option.map (λ words. [] ++ words) o ≡ o
map_id none = refl
map_id (some a) = refl

-- A character that ends no word.
pub read_words-next :
    (m m' : Mode) (c : ℕ) (s : Text)
    → read_char m c ≡ some (m', [])
    → read_words m (c ∷ s) ≡ read_words m' s
unfolding read_words
read_words-next m m' c s e = rw (e, read_words) (map_id (read_words m' s))

-- The blank behind a word.
pub read_words-blank :
    (w s : Text)
    → read_words (in_word w) (space ∷ s) ≡ Option.map (λ words. w ∷ words) (read_words between s)
unfolding read_words
read_words-blank w s = refl
