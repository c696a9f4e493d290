-- ===== src/AuthorizedKeys/Tests.antt =====
-- Files of keys, with the text behind the algorithm as the key.
use cross_host_ops.Base.{
  ◌≡◌, refl, true, false, [], ◌∷◌, ◌++◌, Option, none, some, inl, inr, ok, err, Text, codes,
  text_eq, strip_prefix, newline, split_whitespace, trim, lines,
}
use cross_host_ops.AuthorizedKeys.{
  options_not_supported, parse_failed, is_authorized_key, append_authorized_key,
}
use cross_host_ops.AuthorizedKeys.Append.{append_authorized_key_lem}
use cross_host_ops.AuthorizedKeys.Glued.{append_authorized_key_glued}

-- Of four characters.
abbrev from_openssh : Text → Option Text
from_openssh line = four (strip_prefix (codes "rsa ") line)
  where
    four : Option Text → Option Text
    four (some (a ∷ b ∷ c ∷ d ∷ [])) = some (a ∷ b ∷ c ∷ d ∷ [])
    four _ = none

abbrev to_openssh : Text → Option Text
to_openssh key = some (codes "rsa " ++ key)

abbrev file : Text
file = codes "# mine" ++ newline ∷ (codes "rsa AAAA" ++ newline ∷ [])

append_authorized_key_lem_example :
    (file' : Option Text) × (append_authorized_key from_openssh to_openssh text_eq
        (some file)
        (codes "BBBB")
      ≡ ok (file', true, false))
    × (is_authorized_key from_openssh to_openssh text_eq file' (codes "AAAA") ≡ ok true)
    × (append_authorized_key from_openssh to_openssh text_eq file' (codes "BBBB")
        ≡ ok (file', false, true))
unfolding is_authorized_key lines split_whitespace trim
append_authorized_key_lem_example =
    append_authorized_key_lem from_openssh to_openssh text_eq (some file) (codes "BBBB")
      (codes "BBBB") (codes "AAAA") (codes "rsa BBBB") true
      (inr (codes "# mine" ++ newline ∷ codes "rsa AAAA", refl)) refl
      (
        (
          (refl, (refl, (refl, (refl, (refl, (refl, (refl, (refl, tt)))))))),
          (refl, (refl, (refl, (refl, (refl, (refl, (refl, (refl, tt)))))))),
        ),
        refl,
        refl,
        refl,
        refl,
        codes "rsa",
        refl,
        refl,
      )
      (λ d. refl) refl refl refl

-- The file has no newline at its end.
append_authorized_key_glued_example :
    (file' : Option Text) × (append_authorized_key from_openssh to_openssh text_eq
        (some (codes "rsa AAAA"))
        (codes "BBBB")
      ≡ ok (file', true, false))
    × (is_authorized_key from_openssh to_openssh text_eq file' (codes "AAAA")
        ≡ err (parse_failed 1))
unfolding is_authorized_key lines split_whitespace trim
append_authorized_key_glued_example =
    append_authorized_key_glued from_openssh to_openssh text_eq [] (codes "rsa AAAA")
      (codes "rsa BBBB") (codes "BBBB") (codes "AAAA") (inl refl)
      (
        (
          refl,
          (
            refl,
            (
              refl,
              (
                refl,
                (
                  refl,
                  (
                    refl,
                    (
                      refl,
                      (refl, (refl, (refl, (refl, (refl, (refl, (refl, (refl, (refl, tt))))))))),
                    ),
                  ),
                ),
              ),
            ),
          ),
        ),
        (
          refl,
          (
            refl,
            (
              refl,
              (
                refl,
                (
                  refl,
                  (
                    refl,
                    (
                      refl,
                      (refl, (refl, (refl, (refl, (refl, (refl, (refl, (refl, (refl, tt))))))))),
                    ),
                  ),
                ),
              ),
            ),
          ),
        ),
      )
      refl (λ n. refl) refl refl

-- A line with options stops the search, also for the keys behind it.
options_stop_the_search :
    is_authorized_key from_openssh to_openssh text_eq
      (some (codes "no-pty,from=x rsa CCCC" ++ newline ∷ codes "rsa AAAA"))
      (codes "AAAA")
    ≡ err (options_not_supported 1)
unfolding is_authorized_key lines split_whitespace trim
options_stop_the_search = refl
