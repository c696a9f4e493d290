-- ===== src/Menu/Lines.antt =====
-- What one round of the navigation writes, and what it saw for that.
use cross_host_ops.Base.{
  ◌<◌, ◌≡◌, refl, ap, subst, ◌∙◌, Bool, true, false, List, [], ◌∷◌, ◌++◌, Option, none, some, ltb,
  ltb→lt, ◌&&◌, Result, ok, err, ◌>>=◌, Text, arith, Bool-cases, inl, inr, bind_holds, if_holds,
  retain, text_eq, text_eq_iff, All,
}
use cross_host_ops.PtyShell.{looks_like_prompt}
use cross_host_ops.Menu.{
  Error, JumpserverAssetRow, parse_asset_rows, select_exact_asset_id, PageStatus, parse_page_status,
  contains_menu_prompt, contains_page_prompt, only_id,
}
use cross_host_ops.Menu.Navigate.{
  Navigation, Round, writes, waits, arrives, page_round, no_candidates, without_match, with_match,
  table_round, prompt_round, prompt_suffixes, asks_mfa, react_search, react_menu, react,
}

-- The rows of a text with an address.
abbrev pub Shows : Text → List JumpserverAssetRow → Text → Type 0
Shows ip rows text =
    (all_rows : List JumpserverAssetRow) × (parse_asset_rows text ≡ ok all_rows)
    × (retain (λ row. text_eq row.ip ip) all_rows ≡ rows)

Selects : Text → Text → Result Error (Option Text) → Type 0
Selects text ip (err e) = Unit {0}
Selects text ip (ok none) = Shows ip [] text
Selects text ip (ok (some id)) = Shows ip (record { id = id; ip = ip } ∷ []) text

-- The rows that are kept have the address.
only_id-Selects :
    (text ip : Text) (all_rows rows : List JumpserverAssetRow)
    → parse_asset_rows text ≡ ok all_rows
    → retain (λ row. text_eq row.ip ip) all_rows ≡ rows
    → All (λ row. text_eq row.ip ip ≡ true) rows
    → Selects text ip (only_id rows)
unfolding Selects
only_id-Selects text ip all_rows [] e k h = (all_rows, e, k)
only_id-Selects text ip all_rows (row ∷ []) e k (h, _) =
    let same : row ≡ record { id = row.id; ip = ip } =
      ap (λ (i : Text). let r : JumpserverAssetRow = record { id = row.id; ip = i } in r)
        ((text_eq_iff row.ip ip).0 h) in
    (all_rows, e, k ∙ ap (λ r. r ∷ []) same)
only_id-Selects text ip all_rows (row ∷ another ∷ more) e k h = tt

All-retain {ℓ} : {A : Type ℓ} (p : A → Bool) (xs : List A) → All (λ x. p x ≡ true) (retain p xs)
All-retain p [] = tt
All-retain p (x ∷ xs) = elim (Bool-cases (p x)) [
  | inl e ↦ rw e (e, All-retain p xs)
  | inr e ↦ rw e (All-retain p xs)
]

select_exact_asset_id-Selects : (text ip : Text) → Selects text ip (select_exact_asset_id text ip)
unfolding select_exact_asset_id Selects
select_exact_asset_id-Selects text ip =
    bind_holds (Selects text ip) (parse_asset_rows text) _ (λ e. tt)
      (λ rows h. only_id-Selects text ip rows _ h refl (All-retain _ rows))

module _ (decode : Text → Text) (mfa_code : Result Error Text) (ip : Text) where
  -- The lines that were written and the output that was read for them, with what was on the screen
  -- at each of them. The flags say whether the code, the search and the choice are among the lines.
  pub data Transcript : Bool → Bool → Bool → List Text → Text → Type 0 where
    begun : Transcript false false false [] []
    second_factor :
        {s a : Bool} {out : List Text} {seen : Text} (screen code : Text)
        → Transcript false s a out seen
        → asks_mfa (decode screen) ≡ ok true
        → mfa_code ≡ ok code
        → Transcript true s a (out ++ (code ∷ [])) (seen ++ screen)
    searched :
        {m a : Bool} {out : List Text} {seen : Text} (screen : Text)
        → Transcript m false a out seen
        → contains_menu_prompt (decode screen) ≡ ok true
        → Transcript m true a (out ++ (ip ∷ [])) (seen ++ screen)
    turned :
        {m : Bool} {out : List Text} {seen : Text} (screen : Text) (status : PageStatus)
        → Transcript m true false out seen
        → Shows ip [] (decode screen)
        → parse_page_status (decode screen) ≡ ok (some status)
        → status.current < status.total
        → Transcript m true false (out ++ ([] ∷ [])) (seen ++ screen)
    chosen :
        {m : Bool} {out : List Text} {seen : Text} (screen id : Text)
        → Transcript m true false out seen
        → Shows ip (record { id = id; ip = ip } ∷ []) (decode screen)
        → Transcript m true true (out ++ (id ∷ [])) (seen ++ screen)

  abbrev pub Follows : List Text → Text → Navigation → Result Error Round → Type 0
  Follows out seen st (err e) = Unit {0}
  Follows out seen st (ok (waits st')) = st' ≡ st
  Follows out seen st (ok arrives) = st.search_sent ≡ true
  Follows out seen st (ok (writes line st')) =
      (st'.pending ≡ [])
      × Transcript st'.mfa_sent st'.search_sent st'.asset_id_sent (out ++ (line ∷ []))
          (seen ++ st.pending)

  abbrev state : Text → Bool → Bool → Bool → Navigation
  state p m s a = record { pending = p; mfa_sent = m; search_sent = s; asset_id_sent = a }

  -- What a table comes to is judged by the round that it makes.
  abbrev Comes : List Text → Text → Navigation → Result Error (Option Round) → Type 0
  Comes out seen st r = Follows out seen st (r >>= λ o. ok (prompt_round st o))

  prompt_round-Follows :
      (out : List Text) (seen : Text) (st : Navigation)
      → Follows out seen st (ok (prompt_round st none))
  prompt_round-Follows out seen st =
      if_holds (λ r. Follows out seen st (ok r))
        (st.search_sent && looks_like_prompt st.pending prompt_suffixes) arrives (waits st)
        (both_left st.search_sent _) (λ b. refl)
    where
      both_left : (a b : Bool) → a && b ≡ true → a ≡ true
      both_left a b e = ground arith

  no_candidates-Follows :
      (out : List Text) (seen : Text) (st : Navigation) (rows : List JumpserverAssetRow)
      → Comes out seen st (no_candidates rows)
  no_candidates-Follows out seen st [] = prompt_round-Follows out seen st
  no_candidates-Follows out seen st (row ∷ rows) = tt

  page_round-Follows :
      (p : Text) (m : Bool) (out : List Text) (seen : Text)
      → Transcript m true false out seen
      → Shows ip [] (decode p)
      → (status : Option PageStatus) → parse_page_status (decode p) ≡ ok status
      → Comes out seen (state p m true false) (page_round (state p m true false) status)
  page_round-Follows p m out seen t none_there none e = tt
  page_round-Follows p m out seen t none_there (some status) e =
      if_holds (Comes out seen (state p m true false)) (ltb status.current status.total) _ _
        (λ b. (refl, turned p status t none_there e (ltb→lt _ _ b))) (λ b. tt)

  without_match-Follows :
      (p : Text) (m : Bool) (out : List Text) (seen : Text)
      → Transcript m true false out seen
      → Shows ip [] (decode p)
      → Comes out seen (state p m true false) (without_match (decode p) (state p m true false))
  unfolding without_match
  without_match-Follows p m out seen t none_there =
      let st = state p m true false in
      let P = Comes out seen st in
      let nothing = prompt_round-Follows out seen st in
      bind_holds P (contains_page_prompt (decode p)) _ (λ e. tt)
        (λ paged h.
          if_holds P paged _ _
            (λ b.
              bind_holds P (parse_page_status (decode p)) _ (λ e. tt)
                (page_round-Follows p m out seen t none_there))
            (λ b.
              bind_holds P (contains_menu_prompt (decode p)) _ (λ e. tt)
                (λ menu h'.
                  if_holds P menu _ _
                    (λ b'.
                      bind_holds P (parse_asset_rows (decode p)) _ (λ e. tt)
                        (λ rows h''. no_candidates-Follows out seen st rows))
                    (λ b'. nothing))))

  react_search-Follows :
      (p : Text) (m s a : Bool) (out : List Text) (seen : Text)
      → Transcript m s a out seen
      → Follows out seen
          (state p m s a)
          (react_search decode mfa_code ip (decode p) (state p m s a))
  unfolding table_round Selects
  react_search-Follows p m true false out seen t =
      bind_holds (Comes out seen (state p m true false)) (select_exact_asset_id (decode p) ip) _
        (λ e. tt)
        (λ found h.
          with_match-Follows found
            (subst (Selects (decode p) ip) h (select_exact_asset_id-Selects (decode p) ip)))
    where
      with_match-Follows :
          (found : Option Text)
          → Selects (decode p) ip (ok found)
          → Comes out seen
              (state p m true false)
              (with_match (decode p) (state p m true false) found)
      with_match-Follows none h = without_match-Follows p m out seen t h
      with_match-Follows (some id) h = (refl, chosen p id t h)
  react_search-Follows p m true true out seen t =
      prompt_round-Follows out seen (state p m true true)
  react_search-Follows p m false a out seen t = prompt_round-Follows out seen (state p m false a)

  react_menu-Follows :
      (p : Text) (m s a : Bool) (out : List Text) (seen : Text)
      → Transcript m s a out seen
      → Follows out seen (state p m s a) (react_menu decode mfa_code ip (decode p) (state p m s a))
  react_menu-Follows p m true a out seen t = react_search-Follows p m true a out seen t
  react_menu-Follows p m false a out seen t =
      let P = Follows out seen (state p m false a) in
      bind_holds P (contains_menu_prompt (decode p)) _ (λ e. tt)
        (λ menu h.
          if_holds P menu _ _ (λ b. (refl, searched p t (h ∙ ap ok b)))
            (λ b. react_search-Follows p m false a out seen t))

  pub react-Follows :
      (p : Text) (m s a : Bool) (out : List Text) (seen : Text)
      → Transcript m s a out seen
      → Follows out seen (state p m s a) (react decode mfa_code ip (decode p) (state p m s a))
  unfolding react
  react-Follows p true s a out seen t = react_menu-Follows p true s a out seen t
  react-Follows p false s a out seen t =
      let P = Follows out seen (state p false s a) in
      bind_holds P (asks_mfa (decode p)) _ (λ e. tt)
        (λ asked h.
          if_holds P asked _ _
            (λ b.
              bind_holds P mfa_code _ (λ e. tt)
                (λ code k. (refl, second_factor p code t (h ∙ ap ok b) k)))
            (λ b. react_menu-Follows p false s a out seen t))
