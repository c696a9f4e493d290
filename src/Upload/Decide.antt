-- ===== src/Upload/Decide.antt =====
-- An upload goes on only from a partial file that is the start of the source.
use cross_host_ops.Base.{
  ℕ, ◌≤◌, ◌<◌, ◌≡◌, refl, sym, ap, ◌∙◌, subst, ◌⊎◌, inl, inr, true, not, ◌&&◌, [], ◌∷◌, none, some,
  arith, length, take, ltb, leb, if◌then◌else◌, Text, text_eq, text_eq_iff, text_eq_refl, is_empty,
  lookup, Bool-cases, Option-cases,
}
use cross_host_ops.Upload.{
  Tools, ResumeEntry, Remote, tmp_path, probe_upload_partial, effective, probe_upload_resume,
  prefix_sha256, filtered, skip_of, resume_skip,
}

module _ (tools : Tools) (source_name source dest : Text) (remote : Remote) where
  abbrev pub entry : ResumeEntry
  entry = record {
    relative_path = source_name;
    offset = 0;
    size = length source;
    partial_sha256 = [];
  }

  abbrev pub chosen : ℕ
  chosen = resume_skip tools source_name source (probe_upload_resume tools dest (entry ∷ []) remote)

  -- From the start, or behind a partial file that is a start of the source.
  abbrev pub IsSound : ℕ → Type 0
  IsSound skip =
      (skip ≡ 0)
      ⊎ ((part : Text) × (lookup (tmp_path dest) remote ≡ some part)
          × (skip ≡ length part)
          × (0 < length part)
          × (length part ≤ length source)
          × (take (length part) source ≡ part))

  -- A partial file on the target, if there is one, has another digest than the start of the source
  -- of its length, unless it is that start.
  abbrev pub IsDistinguished : Type 0
  IsDistinguished =
      (part : Text)
      → lookup (tmp_path dest) remote ≡ some part
      → tools.sha256 (take (length part) source) ≡ tools.sha256 part
      → take (length part) source ≡ part

  -- What the acknowledgement with this entry leads to.
  abbrev answered : ResumeEntry → ℕ
  answered e = skip_of tools source (
      filtered tools (λ x. not (is_empty x.partial_sha256))
        (filtered tools (λ x. ltb 0 x.offset)
          (if text_eq e.relative_path source_name then some e else none)))

  answered-part :
      (part : Text)
      → lookup (tmp_path dest) remote ≡ some part
      → ltb 0 (length part) ≡ true
      → leb (length part) (length source) ≡ true
      → IsDistinguished
      → IsSound
          (answered (record entry { offset = length part; partial_sha256 = tools.sha256 part }))
  unfolding prefix_sha256
  answered-part part f some_bytes fits distinct = elim (Bool-cases (is_empty (tools.sha256 part))) [
    | inl e ↦ rw (text_eq_refl source_name, some_bytes, e) (inl refl)
    | inr e ↦
        elim (Bool-cases (text_eq (tools.sha256 (take (length part) source)) (tools.sha256 part))) [
          | inr other ↦ rw (text_eq_refl source_name, some_bytes, e, fits, other) (inl refl)
          | inl same ↦
              let start = distinct part f ((text_eq_iff _ _).0 same) in
              rw (text_eq_refl source_name, some_bytes, e, fits, same)
                (inr (part, f, refl, ground arith, ground arith, start))
        ]
  ]

  answered-none : answered (record entry { offset = 0; partial_sha256 = [] }) ≡ 0
  answered-none = rw (text_eq_refl source_name) refl

  probed : effective tools entry (probe_upload_partial tools dest remote) ≡ entry → chosen ≡ 0
  unfolding resume_skip probe_upload_resume
  probed e = ap answered e ∙ answered-none

  effective-IsSound :
      (e : ResumeEntry)
      → effective tools entry (probe_upload_partial tools dest remote) ≡ e
      → IsSound (answered e)
      → IsSound chosen
  unfolding resume_skip probe_upload_resume
  effective-IsSound e eq h = subst (λ x. IsSound (answered x)) (sym eq) h

  probe_upload_partial-none :
      lookup (tmp_path dest) remote ≡ none → probe_upload_partial tools dest remote ≡ none
  unfolding probe_upload_partial
  probe_upload_partial-none f = rw (f, probe_upload_partial) refl

  probe_upload_partial-some :
      (part : Text)
      → lookup (tmp_path dest) remote ≡ some part
      → probe_upload_partial tools dest remote ≡ some (length part, tools.sha256 part)
  unfolding probe_upload_partial
  probe_upload_partial-some part f = rw (f, probe_upload_partial) refl

  pub chosen-IsSound : IsDistinguished → IsSound chosen
  chosen-IsSound distinct = elim (Option-cases (lookup (tmp_path dest) remote)) [
    | inl f ↦ inl (probed (ap (effective tools entry) (probe_upload_partial-none f)))
    | inr (part, f) ↦
        let at = ap (effective tools entry) (probe_upload_partial-some part f) in
        elim (Bool-cases (ltb 0 (length part) && leb (length part) (length source))) [
          | inr e ↦ inl (probed (at ∙ rw e refl))
          | inl e ↦
              let both : (ltb 0 (length part) ≡ true) × (leb (length part) (length source) ≡ true) =
                ground arith in
              effective-IsSound
                (record entry { offset = length part; partial_sha256 = tools.sha256 part })
                (at ∙ rw e refl) (answered-part part f both.0 both.1 distinct)
        ]
  ]
