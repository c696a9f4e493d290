-- ===== src/Download/Resume.antt =====
-- What a run of `copy --resume` leaves, when it ends and when it is cut off.
use mathlib.Core.List.{flatten}
use cross_host_ops.Base.{
  ℕ, ◌+◌, ◌<◌, ◌≡◌, refl, sym, ap, ◌∙◌, subst, ◌≢◌, ◌⊎◌, inl, inr, Bool, true, false, List, [], ◌∷◌,
  ◌++◌, append-nil, append_assoc, Option, none, some, arith, length, ltb, ◌==◌, ok, Text, codes,
  text_eq, text_eq_refl, lookup, insert, remove, lookup-insert, lookup-remove, length-append, Dict,
}
use cross_host_ops.Download.{
  Store, part_path, meta_path, read_download_sidecar, DownloadResumeCtx, offset_of, resume_ctx,
  Writer, CopyFrame, begin_file, file_data, Error, content, write, append_to, begun, begin,
  add_data, apply, End, apply_all, sidecar_of, handle_failure, publish, settle,
}

pub lookup-insert_same {ℓ} :
    {V : Type ℓ} (k : Text) (v : V) (m : Dict V) → lookup k (insert k v m) ≡ some v
lookup-insert_same k v m = lookup-insert k k v m ∙ rw (text_eq_refl k) refl

pub lookup-remove_same {ℓ} : {V : Type ℓ} (k : Text) (m : Dict V) → lookup k (remove k m) ≡ none
lookup-remove_same k m = lookup-remove k k m ∙ rw (text_eq_refl k) refl

abbrev pub data_frames : List Text → List CopyFrame
data_frames [] = []
data_frames (c ∷ chunks) = file_data c ∷ data_frames chunks

-- A file is open for the partial data, which is `bytes` so far.
abbrev pub Receiving : Text → DownloadResumeCtx → Text → Writer → Store → Type 0
Receiving dest ctx bytes w st =
    (w.dest ≡ dest)
    × (w.resume ≡ some ctx)
    × (w.current_file ≡ some ctx.part)
    × (lookup ctx.part st.files ≡ some bytes)
    × (w.applied ≡ length bytes)

-- `start_offset` asks for a fresh file, or for what the partial file holds.
abbrev pub Starts : DownloadResumeCtx → Store → ℕ → Text → Type 0
Starts ctx st start_offset bytes =
    ((start_offset ≡ 0) × (bytes ≡ []))
    ⊎ ((0 < start_offset)
        × (start_offset ≡ ctx.expected_offset)
        × (start_offset ≡ length bytes)
        × (lookup ctx.part st.files ≡ some bytes))

module _ (is_dir : Text → Bool) (dest : Text) (ctx : DownloadResumeCtx) where
  begin-Receiving :
      (relative_path bytes : Text) (size mtime start_offset : ℕ) (w : Writer) (st : Store)
      → w.dest ≡ dest
      → w.resume ≡ some ctx
      → Starts ctx st start_offset bytes
      → (w' : Writer) × (st' : Store) × (begin is_dir
            (some ctx)
            relative_path
            size
            mtime
            start_offset
            w
            st
          ≡ ok (w', st'))
        × Receiving dest ctx bytes w' st'
  unfolding begin
  begin-Receiving relative_path bytes size mtime start_offset w st d r (inl (z, e)) = (
    begun ctx.part relative_path size mtime start_offset w,
    write ctx.part [] st,
    rw z refl,
    (d, r, refl, lookup-insert_same ctx.part [] st.files ∙ ap some (sym e), z ∙ ap length (sym e)),
  )
  begin-Receiving relative_path bytes size mtime start_offset w st d r (inr (p, x, l, f)) =
      let same : (start_offset == ctx.expected_offset) ≡ true = ground arith in
      let above : ltb 0 start_offset ≡ true = ground arith in
      let kept : content (lookup ctx.part st.files) ++ [] ≡ bytes = rw f (append-nil bytes) in
      (
        begun ctx.part relative_path size mtime start_offset w,
        append_to ctx.part [] st,
        rw (above, same) refl,
        (d, r, refl, lookup-insert_same ctx.part _ st.files ∙ ap some kept, l),
      )

  add_data-Receiving :
      (bytes chunk : Text) (w : Writer) (st : Store)
      → Receiving dest ctx bytes w st
      → (w' : Writer) × (st' : Store) × (add_data w.current_file chunk w st ≡ ok (w', st'))
        × Receiving dest ctx (bytes ++ chunk) w' st'
  unfolding add_data
  add_data-Receiving bytes chunk w st (d, r, c, f, a) =
      let grown : content (lookup ctx.part st.files) ++ chunk ≡ bytes ++ chunk = rw f refl in
      (
        record w { applied = w.applied + length chunk },
        append_to ctx.part chunk st,
        rw (c, add_data) refl,
        (
          d,
          r,
          c,
          lookup-insert_same ctx.part _ st.files ∙ ap some grown,
          omega (arith, length-append bytes chunk),
        ),
      )

  apply_all-data_frames :
      (bytes : Text) (chunks : List Text) (rest : List CopyFrame) (end : End) (w : Writer)
      (st : Store)
      → Receiving dest ctx bytes w st
      → (w' : Writer) × (st' : Store) × (apply_all is_dir (data_frames chunks ++ rest) end w st
          ≡ apply_all is_dir rest end w' st')
        × Receiving dest ctx (bytes ++ flatten chunks) w' st'
  unfolding apply_all apply flatten
  apply_all-data_frames bytes [] rest end w st h =
      (w, st, refl, subst (λ b. Receiving dest ctx b w st) (sym (append-nil bytes)) h)
  apply_all-data_frames bytes (c ∷ chunks) rest end w st h =
      let (w1, st1, e1, h1) = add_data-Receiving bytes c w st h in
      let (w2, st2, e2, h2) = apply_all-data_frames (bytes ++ c) chunks rest end w1 st1 h1 in
      (
        w2,
        st2,
        rw (e1, apply, apply_all) e2,
        subst (λ b. Receiving dest ctx b w2 st2) (append_assoc bytes c (flatten chunks)) h2,
      )

  -- All frames of a file up to its data.
  pub apply_all-begin_file :
      (relative_path bytes : Text) (size mtime start_offset : ℕ) (chunks : List Text)
      (rest : List CopyFrame) (end : End) (w : Writer) (st : Store)
      → w.dest ≡ dest
      → w.resume ≡ some ctx
      → Starts ctx st start_offset bytes
      → (w' : Writer) × (st' : Store) × (apply_all is_dir
            (begin_file relative_path size mtime start_offset ∷ (data_frames chunks ++ rest))
            end
            w
            st
          ≡ apply_all is_dir rest end w' st')
        × Receiving dest ctx (bytes ++ flatten chunks) w' st'
  unfolding apply_all apply
  apply_all-begin_file relative_path bytes size mtime start_offset chunks rest end w st d r s =
      let (w1, st1, e1, h1) =
        begin-Receiving relative_path bytes size mtime start_offset w st d r s in
      let (w2, st2, e2, h2) = apply_all-data_frames bytes chunks rest end w1 st1 h1 in
      let first : begin is_dir w.resume relative_path size mtime start_offset w st ≡ ok (w1, st1) =
        ap (λ c. begin is_dir c relative_path size mtime start_offset w st) r ∙ e1 in
      (w2, st2, rw (first, apply, apply_all) e2, h2)

pub text_eq-append : (s t : Text) → t ≢ [] → text_eq s (s ++ t) ≡ false
text_eq-append [] [] n = absurd (n refl)
text_eq-append [] (c ∷ t) n = refl
text_eq-append (c ∷ s) t n = ground (arith, text_eq-append s t n)

-- The end of a run that was not cut off: the partial file has become the destination.
abbrev pub Published : Text → Text → Store × Option Error → Type 0
Published dest bytes (st, e) =
    (e ≡ none)
    × (lookup dest st.files ≡ some bytes)
    × (lookup (part_path dest) st.files ≡ none)
    × (lookup (meta_path dest) st.sidecars ≡ none)

pub settle-Published :
    (is_dir : Text → Bool) (dest bytes : Text) (ctx : DownloadResumeCtx) (w : Writer) (st : Store)
    → is_dir dest ≡ false
    → ctx.part ≡ part_path dest
    → ctx.meta ≡ meta_path dest
    → w.dest ≡ dest
    → w.resume ≡ some ctx
    → lookup ctx.part st.files ≡ some bytes
    → Published dest bytes (settle is_dir ((w, st), none))
unfolding publish
settle-Published is_dir dest bytes ctx w st file p m d r f =
    let left : Store = record {
      files = insert w.dest bytes (remove ctx.part st.files);
      sidecars = remove ctx.meta st.sidecars;
    } in
    let over_file : is_dir w.dest ≡ false = ap is_dir d ∙ file in
    let renamed : publish is_dir w.resume w st ≡ (left, none) =
      ap (λ x. publish is_dir x w st) r ∙ rw (f, publish) (rw over_file refl) in
    let apart : text_eq w.dest (part_path dest) ≡ false =
      rw d (text_eq-append dest (codes ".part") (λ e. cc)) in
    subst (Published dest bytes) (sym renamed) (
      refl,
      ap (λ k. lookup dest (insert k bytes (remove ctx.part st.files))) d
          ∙ lookup-insert_same dest bytes (remove ctx.part st.files),
      lookup-insert w.dest (part_path dest) bytes (remove ctx.part st.files)
          ∙ rw (apart, p) (lookup-remove_same (part_path dest) st.files),
      rw m (lookup-remove_same (meta_path dest) st.sidecars),
    )

-- The end of a run that was cut off: the next one finds how much the partial file holds.
abbrev pub Kept : Error → Text → Text → Text → Text → Store × Option Error → Type 0
Kept error dest target remote_path bytes (st, e) =
    (e ≡ some error)
    × (lookup (part_path dest) st.files ≡ some bytes)
    × ((resume_ctx dest target remote_path st).expected_offset ≡ length bytes)

pub settle-Kept :
    (is_dir : Text → Bool) (error : Error) (dest target remote_path bytes : Text) (st0 : Store)
    (w : Writer) (st : Store)
    → 0 < length bytes
    → Receiving dest (resume_ctx dest target remote_path st0) bytes w st
    → Kept error dest target remote_path bytes (settle is_dir ((w, st), some error))
unfolding handle_failure resume_ctx read_download_sidecar
settle-Kept is_dir error dest target remote_path bytes st0 w st n (d, r, c, f, a) =
    let ctx = resume_ctx dest target remote_path st0 in
    let s = sidecar_of ctx w in
    let left : Store = record st { sidecars = insert (meta_path dest) s st.sidecars } in
    let above : ltb 0 w.applied ≡ true = ground arith in
    let recorded : handle_failure w.resume w st ≡ left =
      ap (λ x. handle_failure x w st) r ∙ rw (above, handle_failure) refl in
    let found = lookup-insert_same (meta_path dest) s st.sidecars in
    let full : (length bytes == w.applied) ≡ true = ground arith in
    let some_bytes : (w.applied == 0) ≡ false = ground arith in
    let read : read_download_sidecar dest target remote_path left ≡ some s =
      rw (found, f, text_eq_refl target, text_eq_refl remote_path, some_bytes, full) refl in
    subst (λ x. Kept error dest target remote_path bytes (x, some error)) (sym recorded)
      (refl, f, ap offset_of read ∙ a)
