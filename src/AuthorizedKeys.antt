-- ===== src/AuthorizedKeys.antt =====
-- The list of keys that may log in: `is_authorized_key` and `append_authorized_key` of
-- src/daemon/authorized_keys.rs.
--
-- The file is its text, or none if there is none; directories can be made, and writes succeed and
-- are taken whole. The reading and printing of keys, of the crate ssh-key, are parameters, and so is
-- `same`, the test that two keys have the same key data. The mode of the file is left out.
pub mod Append
pub mod Glued
mod Tests
use cross_host_ops.Base.{
  ℕ, suc, Bool, true, false, ◌||◌, List, [], ◌∷◌, ◌++◌, Option, none, some, ◌==◌, if◌then◌else◌,
  Result, ok, err, ◌>>=◌, ok_or, Text, is_empty, contains_char, newline, lines, split_whitespace,
  trim,
}

-- Numbers of lines begin with 1.
pub data Error : Type 0 where
  invalid_line options_not_supported parse_failed : ℕ → Error
  not_serialized : Error

abbrev pub is_comment : Text → Bool
is_comment [] = false
is_comment (c ∷ s) = c == b'#'

abbrev pub has_options : Text → Bool
has_options first = contains_char b'=' first || contains_char b',' first

abbrev pub first_word : Text → Option Text
first_word line = elim (split_whitespace line) [ [] ↦ none | (word ∷ words) ↦ some word ]

abbrev pub or_empty : Option Text → Text
or_empty none = []
or_empty (some s) = s

module _ {Key : Type 0} (from_openssh : Text → Option Key) (to_openssh : Key → Option Text)
    (same : Key → Key → Bool) where
  -- The key of a line, if it has one; the line is trimmed.
  pub key_of_line : ℕ → Text → Result Error (Option Key)
  key_of_line number line =
      if is_empty line || is_comment line
      then ok none
      else (ok_or (first_word line) (invalid_line number) >>= λ first.
          if has_options first
          then err (options_not_supported number)
          else (ok_or (from_openssh line) (parse_failed number) >>= λ key. ok (some key)))

  abbrev pub is_candidate : Key → Option Key → Bool
  is_candidate candidate none = false
  is_candidate candidate (some key) = same key candidate

  -- The lines from a number on; what is behind the candidate is not read.
  pub scan : ℕ → List Text → Key → Result Error Bool
  unfolding key_of_line
  scan number [] candidate = ok false
  scan number (raw_line ∷ rest) candidate =
      let later = scan (suc number) rest candidate in
      key_of_line number (trim raw_line) >>= λ key.
      if is_candidate candidate key then ok true else later

  unfoldable pub is_authorized_key : Option Text → Key → Result Error Bool
  unfolding scan
  is_authorized_key none candidate = ok false
  is_authorized_key (some content) candidate = scan 1 (lines content) candidate

  -- What is in the file then, and the flags `appended` and `already_present`.
  unfoldable pub append_authorized_key :
      Option Text → Key → Result Error (Option Text × Bool × Bool)
  unfolding is_authorized_key
  append_authorized_key file key = is_authorized_key file key >>= λ present.
      if present
      then ok (file, false, true)
      else (ok_or (to_openssh key) not_serialized >>= λ line.
          ok (some (or_empty file ++ (line ++ (newline ∷ []))), true, false))
