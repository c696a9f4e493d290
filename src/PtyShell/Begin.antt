-- ===== src/PtyShell/Begin.antt =====
-- Phase 1 finds the begin marker, though it forgets all but a tail of what it has read.
use mathlib.Core.List.{flatten}
use native.Mathlib.Decide.{dec_lt}
use cross_host_ops.Base.{
  ◌+◌, ◌-◌, ◌*◌, ◌<◌, ◌≡◌, refl, sym, ap, ◌∙◌, subst, inl, inr, ◌≢◌, List, [], ◌∷◌, ◌++◌, Option,
  some, arith, length, drop, Text, length-append, length-drop, append_assoc, append-nil, ltb,
  Bool-cases,
}
use cross_host_ops.Sentinel.Search.{FirstAt, FirstAt-drop, find_subslice-before, find_subslice-at}
use cross_host_ops.Sentinel.After.{split_start}
use cross_host_ops.Sentinel.Stream.{common_start}
use cross_host_ops.PtyShell.{shorten, discard}

module _ (m body : Text) (named : m ≢ []) where
  -- What is kept still ends in front of the whole marker.
  abbrev Ahead : Text → Text → Type 0
  Ahead buf r =
      (o : Text) × FirstAt m o × (buf ++ r ≡ o ++ (m ++ body)) × (length buf < length o + length m)

  Ahead-shorten : (buf r : Text) → Ahead buf r → Ahead (shorten (length m) buf) r
  Ahead-shorten buf r (o, f, e, l) = elim (Bool-cases (ltb (length m * 2) (length buf))) [
    | inr fits ↦ rw fits (o, f, e, l)
    | inl long ↦
        let k = length buf - length m * 2 in
        let parts = common_start k buf r o (m ++ body) e (omega arith) (omega arith) in
        rw long (
          drop k o,
          FirstAt-drop m o k f,
          parts.1,
          omega (arith, length-drop k o, length-drop k buf),
        )
  ]

  abbrev Finds : Option (Text × List Text) → Type 0
  Finds found =
      (after : Text) × (later : List Text) × (found ≡ some (after, later))
      × (after ++ flatten later ≡ body)

  pub discard-Finds :
      (buf : Text) (chunks : List Text) → Ahead buf (flatten chunks) → Finds (discard m buf chunks)
  unfolding discard flatten
  discard-Finds buf [] (o, f, e, l) =
      let whole = ap length (sym (append-nil buf) ∙ e) in
      absurd (omega (arith, length-append o (m ++ body), length-append m body))
  discard-Finds buf (chunk ∷ chunks) (o, f, e, l) =
      let held = buf ++ chunk in
      let e' = append_assoc buf chunk (flatten chunks) ∙ e in
      elim (dec_lt (length held) (length o + length m)) [
        | yes short ↦
            rw (find_subslice-before m body (flatten chunks) o held f e' short, discard)
              (discard-Finds (shorten (length m) held) chunks
                (Ahead-shorten held (flatten chunks) (o, f, e', short)))
        | no whole ↦
            let found = find_subslice-at m body (flatten chunks) o held f e' (omega arith) named in
            let size = length-append o m in
            let parts =
              split_start (o ++ m) held (flatten chunks) body (e' ∙ sym (append_assoc o m body))
                (omega arith) in
            rw (found, discard)
              (
                drop (length o + length m) held,
                chunks,
                refl,
                subst (λ n. drop n held ++ flatten chunks ≡ body) size parts.1,
              )
      ]
