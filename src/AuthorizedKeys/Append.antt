-- ===== src/AuthorizedKeys/Append.antt =====
-- Who may log in when a key was appended.
use cross_host_ops.Base.{
  ℕ, suc, ◌+◌, ◌≡◌, refl, sym, ap, ◌∙◌, Bool, true, false, ◌||◌, List, [], ◌∷◌, ◌++◌, Option, none,
  some, length, if◌then◌else◌, Bool-cases, inl, inr, Result, ok, err, ◌>>=◌, Text, is_empty,
  newline, lines, EndsLine, IsOneLine, lines-append, trim, arith,
}
use cross_host_ops.AuthorizedKeys.{
  Error, is_comment, has_options, first_word, or_empty, key_of_line, is_candidate, scan,
  is_authorized_key, append_authorized_key,
}

-- The outcome of a scan, and then of one behind it.
abbrev pub then_scan : Result Error Bool → Result Error Bool → Result Error Bool
then_scan (err e) later = err e
then_scan (ok true) later = ok true
then_scan (ok false) later = later

then_scan-or : (a b : Bool) → then_scan (ok a) (ok b) ≡ ok (a || b)
then_scan-or true b = refl
then_scan-or false b = refl

ok_if : (b : Bool) → (if b then ok true else ok false) ≡ (let r : Result Error Bool = ok b in r)
ok_if true = refl
ok_if false = refl

module _ {Key : Type 0} (from_openssh : Text → Option Key) (to_openssh : Key → Option Text)
    (same : Key → Key → Bool) where
  abbrev look : Key → Result Error (Option Key) → Result Error Bool → Result Error Bool
  look c r later =
      r >>= λ key. if is_candidate from_openssh to_openssh same c key then ok true else later

  look-then_scan :
      (c : Key) (r : Result Error (Option Key)) (later more : Result Error Bool)
      → look c r (then_scan later more) ≡ then_scan (look c r later) more
  look-then_scan c (err e) later more = refl
  look-then_scan c (ok key) later more =
      elim (Bool-cases (is_candidate from_openssh to_openssh same c key)) [
        | inl e ↦ rw e refl
        | inr e ↦ rw e refl
      ]

  pub scan-append :
      (n : ℕ) (xs ys : List Text) (c : Key)
      → scan from_openssh to_openssh same n (xs ++ ys) c
        ≡ then_scan
            (scan from_openssh to_openssh same n xs c)
            (scan from_openssh to_openssh same (n + length xs) ys c)
  unfolding scan
  scan-append n [] ys c = ap (λ k. scan from_openssh to_openssh same k ys c) (omega arith)
  scan-append n (x ∷ xs) ys c =
      let r = key_of_line from_openssh to_openssh same n (trim x) in
      let later = scan from_openssh to_openssh same (suc n) xs c in
      ap (look c r) (
        scan-append (suc n) xs ys c
        ∙ ap (λ k. then_scan later (scan from_openssh to_openssh same k ys c)) (omega arith))
      ∙ look-then_scan c r later _

  pub is_authorized_key-scan :
      (file : Option Text) (c : Key)
      → is_authorized_key from_openssh to_openssh same file c
        ≡ scan from_openssh to_openssh same 1 (lines (or_empty file)) c
  unfolding is_authorized_key scan lines
  is_authorized_key-scan none c = refl
  is_authorized_key-scan (some content) c = refl

  -- How a key is printed: on one line, with the algorithm first and without spaces around, so that
  -- it is read back as a key.
  abbrev pub IsPrinted : Text → Key → Type 0
  IsPrinted line key =
      IsOneLine line
      × (trim line ≡ line)
      × (is_empty line ≡ false)
      × (is_comment line ≡ false)
      × (from_openssh line ≡ some key)
      × (first : Text) × (first_word line ≡ some first)
      × (has_options first ≡ false)

  key_of_line-IsPrinted :
      (n : ℕ) (line : Text) (key : Key)
      → IsPrinted line key
      → key_of_line from_openssh to_openssh same n (trim line) ≡ ok (some key)
  unfolding key_of_line
  key_of_line-IsPrinted n line key (one, trimmed, filled, no_comment, read, first, word, plain) =
      rw (trimmed, filled, no_comment, word, plain, read) refl

  scan-IsPrinted :
      (n : ℕ) (line : Text) (key c : Key)
      → IsPrinted line key
      → scan from_openssh to_openssh same n (line ∷ []) c ≡ ok (same key c)
  unfolding scan
  scan-IsPrinted n line key c p =
      ap (λ r. look c r (ok false)) (key_of_line-IsPrinted n line key p) ∙ ok_if (same key c)

  -- A key that is not in a file, which is missing, empty or ends with a newline: it is appended, and
  -- then exactly those may log in who could before, and the key itself. If the key equals itself, to
  -- append it again changes nothing and says that it is there.
  pub append_authorized_key_lem :
      (file : Option Text) (key key' c : Key) (line : Text) (b : Bool)
      → EndsLine (or_empty file)
      → to_openssh key ≡ some line
      → IsPrinted line key'
      → ((d : Key) → same key' d ≡ same key d)
      → same key key ≡ true
      → is_authorized_key from_openssh to_openssh same file key ≡ ok false
      → is_authorized_key from_openssh to_openssh same file c ≡ ok b
      → (file' : Option Text) × (append_authorized_key from_openssh to_openssh same file key
          ≡ ok (file', true, false))
        × (is_authorized_key from_openssh to_openssh same file' c ≡ ok (b || same key c))
        × (append_authorized_key from_openssh to_openssh same file' key ≡ ok (file', false, true))
  unfolding append_authorized_key
  append_authorized_key_lem file key key' c line b ends shown printed alike self absent before =
      let content' = or_empty file ++ (line ++ (newline ∷ [])) in
      let behind = 1 + length (lines (or_empty file)) in
      let after : (d : Key) (a : Bool)
          → is_authorized_key from_openssh to_openssh same file d ≡ ok a
          → is_authorized_key from_openssh to_openssh same (some content') d
            ≡ ok (a || same key d) =
        λ d a e.
          is_authorized_key-scan (some content') d
          ∙ (ap (λ ls. scan from_openssh to_openssh same 1 ls d)
                (lines-append (or_empty file) line ends printed.0)
              ∙ (scan-append 1 (lines (or_empty file)) (line ∷ []) d
                  ∙ (ap (λ r. then_scan r (scan from_openssh to_openssh same behind (line ∷ []) d))
                        (sym (is_authorized_key-scan file d) ∙ e)
                      ∙ (ap (then_scan (ok a))
                            (scan-IsPrinted behind line key' d printed ∙ ap ok (alike d))
                          ∙ then_scan-or a (same key d))))) in
      (
        some content',
        rw (absent, shown) refl,
        after c b before,
        rw (after key false absent ∙ ap ok self) refl,
      )
