-- ===== src/AuthorizedKeys/Glued.antt =====
-- A key that is appended to a file that does not end with a newline.
use cross_host_ops.Base.{
  ℕ, ◌+◌, ◌≡◌, refl, sym, ap, ◌∙◌, Bool, true, false, [], ◌∷◌, ◌++◌, Option, some, length,
  append_assoc, ok, err, Text, newline, lines, EndsLine, IsOneLine, lines-append, trim,
}
use cross_host_ops.AuthorizedKeys.{
  parse_failed, key_of_line, scan, is_authorized_key, append_authorized_key,
}
use cross_host_ops.AuthorizedKeys.Append.{then_scan, scan-append, is_authorized_key-scan}

module _ {Key : Type 0} (from_openssh : Text → Option Key) (to_openssh : Key → Option Text)
    (same : Key → Key → Bool) where
  glued_fails :
      (line : Text) (n : ℕ) (c : Key)
      → key_of_line from_openssh to_openssh same n (trim line) ≡ err (parse_failed n)
      → scan from_openssh to_openssh same n (line ∷ []) c ≡ err (parse_failed n)
  unfolding scan
  glued_fails line n c e = rw e refl

  -- A file whose last line has no line break, and a key that is not in it, where what was printed of
  -- the key cannot be read as a key behind that line: the key is reported as appended, and whoever
  -- does not have a key on one of the lines before gets an error then, the key itself too.
  pub append_authorized_key_glued :
      (front last line : Text) (key c : Key)
      → EndsLine front
      → IsOneLine (last ++ line)
      → to_openssh key ≡ some line
      → ((n : ℕ)
          → key_of_line from_openssh to_openssh same n (trim (last ++ line)) ≡ err (parse_failed n))
      → is_authorized_key from_openssh to_openssh same (some (front ++ last)) key ≡ ok false
      → is_authorized_key from_openssh to_openssh same (some front) c ≡ ok false
      → (file' : Option Text) × (append_authorized_key from_openssh to_openssh same
            (some (front ++ last))
            key
          ≡ ok (file', true, false))
        × (is_authorized_key from_openssh to_openssh same file' c
            ≡ err (parse_failed (1 + length (lines front))))
  unfolding append_authorized_key
  append_authorized_key_glued front last line key c ends one shown unread absent before =
      let content' = (front ++ last) ++ (line ++ (newline ∷ [])) in
      let regroup =
        append_assoc front last (line ++ (newline ∷ []))
        ∙ ap (λ t. front ++ t) (sym (append_assoc last line (newline ∷ []))) in
      let behind = 1 + length (lines front) in
      let glued = scan from_openssh to_openssh same behind ((last ++ line) ∷ []) c in
      let fails : glued ≡ err (parse_failed behind) =
        glued_fails (last ++ line) behind c (unread behind) in
      (
        some content',
        rw (absent, shown) refl,
        is_authorized_key-scan from_openssh to_openssh same (some content') c
            ∙ (ap (λ t. scan from_openssh to_openssh same 1 (lines t) c) regroup
                ∙ (ap (λ ls. scan from_openssh to_openssh same 1 ls c)
                      (lines-append front (last ++ line) ends one)
                    ∙ (scan-append from_openssh to_openssh same 1 (lines front)
                          ((last ++ line) ∷ []) c
                        ∙ (ap (λ r. then_scan r glued)
                              (sym (
                                  is_authorized_key-scan from_openssh to_openssh same (some front)
                                    c)
                                ∙ before)
                            ∙ fails)))),
      )
