-- ===== src/Download/Plain.antt =====
-- What a run without `--resume` leaves.
use mathlib.Core.List.{flatten}
use cross_host_ops.Base.{
  ℕ, ◌+◌, length, ◌≡◌, refl, sym, ap, ◌∙◌, subst, Bool, List, [], ◌∷◌, ◌++◌, append-nil,
  append_assoc, Option, none, some, ok, Text, lookup,
}
use cross_host_ops.Download.{
  Store, new, Writer, CopyFrame, begin_file, end_file, end_of_stream, Error, content, write,
  append_to, begun, destination_for_single_entry, begin, add_data, apply, End, ended, at_end,
  apply_all, publish, settle, download_plain,
}
use cross_host_ops.Download.Resume.{data_frames, lookup-insert_same}

-- Where the file goes.
abbrev pub destination : (Text → Bool) → Text → Text → Text → Text
destination is_dir dest source_name relative_path =
    destination_for_single_entry is_dir (new dest source_name none) relative_path

-- The file at `path` is open and holds `bytes`.
abbrev Writing : Text → Text → Text → Text → Writer → Store → Type 0
Writing dest source_name path bytes w st =
    (w.dest ≡ dest)
    × (w.source_name ≡ source_name)
    × (w.resume ≡ none)
    × (w.current_file ≡ some path)
    × (lookup path st.files ≡ some bytes)

-- The frames of a file, and what follows.
abbrev pub file_frames : Text → ℕ → ℕ → ℕ → List Text → List CopyFrame → List CopyFrame
file_frames relative_path size mtime start_offset chunks rest =
    begin_file relative_path size mtime start_offset ∷ (data_frames chunks ++ rest)

abbrev pub closing : List CopyFrame
closing = end_file ∷ (end_of_stream ∷ [])

module _ (is_dir : Text → Bool) (dest source_name relative_path : Text) where
  begin-Writing :
      (size mtime start_offset : ℕ) (w : Writer) (st : Store)
      → w.dest ≡ dest
      → w.source_name ≡ source_name
      → w.resume ≡ none
      → (w' : Writer) × (st' : Store) × (begin is_dir none relative_path size mtime start_offset w
            st
          ≡ ok (w', st'))
        × Writing dest source_name (destination is_dir dest source_name relative_path) [] w' st'
  unfolding begin new
  begin-Writing size mtime start_offset w st d n r =
      let path = destination_for_single_entry is_dir w relative_path in
      let same : path ≡ destination is_dir dest source_name relative_path = rw (d, n) refl in
      (
        begun path relative_path size mtime 0 w,
        write path [] st,
        refl,
        (
          d,
          n,
          r,
          ap some same,
          subst (λ p. lookup p (write path [] st).files ≡ some []) same
              (lookup-insert_same path [] st.files),
        ),
      )

  add_data-Writing :
      (path bytes chunk : Text) (w : Writer) (st : Store)
      → Writing dest source_name path bytes w st
      → (w' : Writer) × (st' : Store) × (add_data w.current_file chunk w st ≡ ok (w', st'))
        × Writing dest source_name path (bytes ++ chunk) w' st'
  unfolding add_data
  add_data-Writing path bytes chunk w st (d, n, r, f, b) =
      let grown : content (lookup path st.files) ++ chunk ≡ bytes ++ chunk = rw b refl in
      (
        record w { applied = w.applied + length chunk },
        append_to path chunk st,
        rw (f, add_data) refl,
        (d, n, r, f, lookup-insert_same path _ st.files ∙ ap some grown),
      )

  apply_all-data_frames :
      (path bytes : Text) (chunks : List Text) (rest : List CopyFrame) (end : End) (w : Writer)
      (st : Store)
      → Writing dest source_name path bytes w st
      → (w' : Writer) × (st' : Store) × (apply_all is_dir (data_frames chunks ++ rest) end w st
          ≡ apply_all is_dir rest end w' st')
        × Writing dest source_name path (bytes ++ flatten chunks) w' st'
  unfolding apply_all apply flatten
  apply_all-data_frames path bytes [] rest end w st h =
      (w, st, refl, subst (λ b. Writing dest source_name path b w st) (sym (append-nil bytes)) h)
  apply_all-data_frames path bytes (c ∷ chunks) rest end w st h =
      let (w1, st1, e1, h1) = add_data-Writing path bytes c w st h in
      let (w2, st2, e2, h2) = apply_all-data_frames path (bytes ++ c) chunks rest end w1 st1 h1 in
      (
        w2,
        st2,
        rw (e1, apply, apply_all) e2,
        subst (λ x. Writing dest source_name path x w2 st2) (append_assoc bytes c (flatten chunks))
            h2,
      )

  -- All frames of a file up to its data: wherever it starts, the file holds what comes.
  apply_all-begin_file :
      (size mtime start_offset : ℕ) (chunks : List Text) (rest : List CopyFrame) (end : End)
      (w : Writer) (st : Store)
      → w.dest ≡ dest
      → w.source_name ≡ source_name
      → w.resume ≡ none
      → (w' : Writer) × (st' : Store) × (apply_all is_dir
            (begin_file relative_path size mtime start_offset ∷ (data_frames chunks ++ rest))
            end
            w
            st
          ≡ apply_all is_dir rest end w' st')
        × Writing dest source_name
            (destination is_dir dest source_name relative_path)
            (flatten chunks)
            w'
            st'
  unfolding apply_all apply
  apply_all-begin_file size mtime start_offset chunks rest end w st d n r =
      let (w1, st1, e1, h1) = begin-Writing size mtime start_offset w st d n r in
      let (w2, st2, e2, h2) = apply_all-data_frames _ [] chunks rest end w1 st1 h1 in
      let first : begin is_dir w.resume relative_path size mtime start_offset w st ≡ ok (w1, st1) =
        ap (λ c. begin is_dir c relative_path size mtime start_offset w st) r ∙ e1 in
      (w2, st2, rw (first, apply, apply_all) e2, h2)

  -- The end of a run that wrote a file.
  abbrev pub Holds : Text → Store × Option Error → Type 0
  Holds bytes (st, e) =
      (e ≡ none)
      × (lookup (destination is_dir dest source_name relative_path) st.files ≡ some bytes)

  settle-closing :
      (bytes : Text) (w : Writer) (st : Store)
      → Writing dest source_name (destination is_dir dest source_name relative_path) bytes w st
      → Holds bytes (settle is_dir (apply_all is_dir closing ended w st))
  unfolding apply_all apply at_end publish
  settle-closing bytes w st (d, n, r, f, b) = rw (r, publish) (refl, b)

  -- A file in one piece.
  pub download_plain-Holds :
      (size mtime start_offset : ℕ) (chunks : List Text) (st : Store)
      → Holds (flatten chunks) (
          download_plain is_dir dest source_name
            (file_frames relative_path size mtime start_offset chunks closing)
            ended
            st)
  unfolding download_plain new
  download_plain-Holds size mtime start_offset chunks st =
      let (w', st', run, h) =
        apply_all-begin_file size mtime start_offset chunks closing ended
          (new dest source_name none) st refl refl refl in
      rw (run, download_plain) (settle-closing (flatten chunks) w' st' h)

  -- A file that is begun again: what came before is lost.
  pub download_plain-restarted :
      (size mtime start_offset start_offset' : ℕ) (first later : List Text) (st : Store)
      → Holds (flatten later) (
          download_plain is_dir dest source_name
            (file_frames relative_path size mtime start_offset first
              (file_frames relative_path size mtime start_offset' later closing))
            ended
            st)
  unfolding download_plain new
  download_plain-restarted size mtime start_offset start_offset' first later st =
      let (w1, st1, run1, h1) =
        apply_all-begin_file size mtime start_offset first
          (file_frames relative_path size mtime start_offset' later closing) ended
          (new dest source_name none) st refl refl refl in
      let (w2, st2, run2, h2) =
        apply_all-begin_file size mtime start_offset' later closing ended w1 st1 h1.0 h1.1 h1.2 in
      rw (run1, download_plain) (rw run2 (settle-closing (flatten later) w2 st2 h2))
