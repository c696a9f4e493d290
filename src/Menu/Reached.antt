-- ===== src/Menu/Reached.antt =====
-- What is written to a bastion on the way to an asset.
use mathlib.Core.List.{flatten}
use cross_host_ops.Base.{
  ◌≡◌, refl, sym, ap, subst, ◌∙◌, Bool, true, List, [], ◌∷◌, ◌++◌, append-nil, append_assoc, Result,
  ok, err, Text, arith,
}
use cross_host_ops.Resolver.{derive_target_ip}
use cross_host_ops.Menu.{Error, closed}
use cross_host_ops.Menu.Lines.{Transcript, begun, Follows, react-Follows}
use cross_host_ops.Menu.Navigate.{
  Navigation, new, Round, writes, waits, arrives, extend_pending, round, Run, then_line,
  after_round, navigate, navigate_to_asset,
}

module _ (decode : Text → Text) (mfa_code : Result Error Text) (ip : Text) where
  -- The lines that a run writes behind `out`, and `rest`, the part of its input that was read for
  -- them.
  abbrev Continues : List Text → Text → Text → Run → Type 0
  Continues out seen input (more, end) =
      (m : Bool) × (s : Bool) × (a : Bool) × (rest : Text) × (later : Text) × (input
        ≡ rest ++ later)
      × Transcript decode mfa_code ip m s a (out ++ more) (seen ++ rest)
      × ((unread : List Text) → end ≡ ok unread → s ≡ true)

  stopped :
      (m s a : Bool) (out : List Text) (seen input : Text) (end : Result Error (List Text))
      → Transcript decode mfa_code ip m s a out seen
      → ((unread : List Text) → end ≡ ok unread → s ≡ true)
      → Continues out seen input ([], end)
  stopped m s a out seen input end t there =
      let t' = subst (Transcript decode mfa_code ip m s a out) (sym (append-nil seen)) t in
      (
        m,
        s,
        a,
        [],
        input,
        refl,
        subst (λ o. Transcript decode mfa_code ip m s a o (seen ++ [])) (sym (append-nil out)) t',
        there,
      )

  wrote :
      (out : List Text) (seen p input line : Text) (r : Run)
      → Continues (out ++ (line ∷ [])) (seen ++ p) input r
      → Continues out seen (p ++ input) (then_line line r)
  wrote out seen p input line (more, end) (m, s, a, rest, later, e, t, there) =
      let t' =
        subst (λ o. Transcript decode mfa_code ip m s a o ((seen ++ p) ++ rest))
          (append_assoc out (line ∷ []) more) t in
      (
        m,
        s,
        a,
        p ++ rest,
        later,
        ap (λ i. p ++ i) e ∙ sym (append_assoc p rest later),
        subst (Transcript decode mfa_code ip m s a (out ++ (line ∷ more)))
            (append_assoc seen p rest) t',
        there,
      )

  -- What holds of the runs behind a round holds of the run with it.
  after_round-Continues :
      (go : Navigation → Run) (unread : List Text) (st : Navigation) (input : Text)
      (out : List Text) (seen : Text) (r : Result Error Round)
      → Transcript decode mfa_code ip st.mfa_sent st.search_sent st.asset_id_sent out seen
      → ((st' : Navigation) (out' : List Text) (seen' : Text)
          → Transcript decode mfa_code ip st'.mfa_sent st'.search_sent st'.asset_id_sent out' seen'
          → Continues out' seen' (st'.pending ++ input) (go st'))
      → Follows decode mfa_code ip out seen st r
      → Continues out seen (st.pending ++ input) (after_round go unread r)
  after_round-Continues go unread st input out seen (err e) t goes f =
      stopped _ _ _ out seen _ (err e) t (λ u e'. absurd (ground arith))
  after_round-Continues go unread st input out seen (ok (writes line st')) t goes (p, t') =
      wrote out seen st.pending input line (go st') (
        subst (λ q. Continues (out ++ (line ∷ [])) (seen ++ st.pending) (q ++ input) (go st')) p
          (goes st' _ _ t'))
  after_round-Continues go unread st input out seen (ok (waits st')) t goes f =
      subst (λ q. Continues out seen (st.pending ++ input) (go q)) (sym f) (goes st out seen t)
  after_round-Continues go unread st input out seen (ok arrives) t goes f =
      stopped _ _ _ out seen _ (ok unread) t (λ u e. f)

  navigate-Continues :
      (chunks : List Text) (st : Navigation) (out : List Text) (seen : Text)
      → Transcript decode mfa_code ip st.mfa_sent st.search_sent st.asset_id_sent out seen
      → Continues out seen (st.pending ++ flatten chunks) (navigate decode mfa_code ip chunks st)
  unfolding navigate round flatten
  navigate-Continues [] st out seen t =
      stopped _ _ _ out seen _ (err closed) t (λ u e. absurd (ground arith))
  navigate-Continues (chunk ∷ chunks) st out seen t =
      let p = st.pending ++ chunk in
      let st' = extend_pending decode mfa_code ip chunk st in
      subst (λ i. Continues out seen i (navigate decode mfa_code ip (chunk ∷ chunks) st))
        (append_assoc st.pending chunk (flatten chunks))
        (after_round-Continues (navigate decode mfa_code ip chunks) chunks st' (flatten chunks) out
          seen (round decode mfa_code ip chunk st) t (navigate-Continues chunks)
          (react-Follows decode mfa_code ip p st.mfa_sent st.search_sent st.asset_id_sent out seen
            t))

-- However the bastion answers, the lines that were written are those of a transcript: the address
-- once; one line behind a table with exactly one row of that address, which is the id of that row,
-- and before it only empty lines, each behind a page with no such row that is not the last; and the
-- code at most once, behind a screen that asks for it. Each screen is the output since the line
-- before. If the shell is there in the end, the address was sent.
pub navigate_to_asset-Transcript :
    (decode : Text → Text) (mfa_code : Result Error Text) (target : Text) (chunks : List Text)
    → (m : Bool) × (s : Bool) × (a : Bool) × (seen : Text) × (later : Text) × (flatten chunks
        ≡ seen ++ later)
      × Transcript decode mfa_code
          (derive_target_ip target)
          m
          s
          a
          (navigate_to_asset decode mfa_code target chunks).0
          seen
      × ((unread : List Text)
          → (navigate_to_asset decode mfa_code target chunks).1 ≡ ok unread
          → s ≡ true)
unfolding navigate_to_asset new
navigate_to_asset-Transcript decode mfa_code target chunks =
    navigate-Continues decode mfa_code (derive_target_ip target) chunks new [] [] begun
