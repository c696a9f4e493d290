-- ===== src/Menu/Pages.antt =====
-- A search of which the bastion shows page by page, one screen in each chunk, with no second factor.
use cross_host_ops.Base.{
  ◌<◌, ◌≤◌, ◌≡◌, refl, ap, ◌∙◌, true, false, List, [], ◌∷◌, ◌++◌, map, none, some, All, ltb-ge,
  lt→ltb, append-nil, Result, ok, err, Text,
}
use cross_host_ops.Resolver.{derive_target_ip}
use cross_host_ops.PtyShell.{looks_like_prompt}
use cross_host_ops.Menu.{
  Error, not_found, select_exact_asset_id, PageStatus, parse_page_status, contains_menu_prompt,
  contains_page_prompt,
}
use cross_host_ops.Menu.Navigate.{
  Navigation, new, writes, prompt_suffixes, asks_mfa, without_match, table_round, react, round,
  then_line, navigate, navigate_to_asset,
}

module _ (decode : Text → Text) (mfa_code : Result Error Text) where
  -- The menu that asks what to search for.
  abbrev pub IsMenu : Text → Type 0
  IsMenu screen =
      (asks_mfa (decode screen) ≡ ok false) × (contains_menu_prompt (decode screen) ≡ ok true)

  abbrev pub IsPage : Text → PageStatus → Text → Type 0
  IsPage ip status screen =
      (asks_mfa (decode screen) ≡ ok false)
      × (select_exact_asset_id (decode screen) ip ≡ ok none)
      × (contains_page_prompt (decode screen) ≡ ok true)
      × (parse_page_status (decode screen) ≡ ok (some status))

  -- A page that is not the last one.
  abbrev pub IsEarlyPage : Text → Text → Type 0
  IsEarlyPage ip screen =
      (status : PageStatus) × (status.current < status.total) × IsPage ip status screen

  abbrev pub HasAsset : Text → Text → Text → Type 0
  HasAsset ip id screen =
      (asks_mfa (decode screen) ≡ ok false)
      × (select_exact_asset_id (decode screen) ip ≡ ok (some id))

  -- The prompt of the asset's shell.
  abbrev pub IsPrompt : Text → Type 0
  IsPrompt screen =
      (asks_mfa (decode screen) ≡ ok false) × (looks_like_prompt screen prompt_suffixes ≡ true)

  abbrev searching : Navigation
  searching = record { pending = []; mfa_sent = false; search_sent = true; asset_id_sent = false }

  module _ (ip : Text) where
    round-menu :
        (screen : Text)
        → IsMenu screen
        → round decode mfa_code ip screen new ≡ ok (writes ip searching)
    unfolding round react new
    round-menu screen (mfa, menu) = rw (mfa, menu) refl

    round-early :
        (screen : Text)
        → IsEarlyPage ip screen
        → round decode mfa_code ip screen searching ≡ ok (writes [] searching)
    unfolding round react table_round without_match
    round-early screen (status, early, (mfa, absent, paged, number)) =
        rw (mfa, absent, paged, number, lt→ltb _ _ early) refl

    round-last :
        (status : PageStatus) (screen : Text)
        → status.total ≤ status.current
        → IsPage ip status screen
        → round decode mfa_code ip screen searching ≡ err (not_found status.total)
    unfolding round react table_round without_match
    round-last status screen last (mfa, absent, paged, number) =
        rw (mfa, absent, paged, number, ltb-ge _ _ last) refl

    -- The pages that do not have the asset are turned.
    navigate-pages :
        (pages rest : List Text) (more : List Text) (end : Result Error (List Text))
        → All (IsEarlyPage ip) pages
        → navigate decode mfa_code ip rest searching ≡ (more, end)
        → navigate decode mfa_code ip (pages ++ rest) searching
          ≡ (map (λ page. []) pages ++ more, end)
    unfolding navigate
    navigate-pages [] rest more end early found = found
    navigate-pages (page ∷ pages) rest more end (p, early) found =
        rw (round-early page p) (ap (then_line []) (navigate-pages pages rest more end early found))

    navigate-asset :
        (id table prompt : Text) (later : List Text)
        → HasAsset ip id table
        → IsPrompt prompt
        → navigate decode mfa_code ip (table ∷ prompt ∷ later) searching ≡ (id ∷ [], ok later)
    unfolding navigate round react table_round
    navigate-asset id table prompt later (mfa, there) (mfa', ready) =
        rw (mfa, there, mfa', ready) refl

  -- If the menu comes first, then pages that are not the last and do not have the address, then a
  -- table with the address in exactly one row, and then a prompt of a shell: the address is sent, an
  -- empty line for each of the pages, and the id of that row, and the shell is there.
  pub navigate_to_asset_pages :
      (target id menu table prompt : Text) (pages later : List Text)
      → IsMenu menu
      → All (IsEarlyPage (derive_target_ip target)) pages
      → HasAsset (derive_target_ip target) id table
      → IsPrompt prompt
      → navigate_to_asset decode mfa_code target (menu ∷ (pages ++ (table ∷ prompt ∷ later)))
        ≡ (derive_target_ip target ∷ (map (λ page. []) pages ++ (id ∷ [])), ok later)
  unfolding navigate_to_asset navigate
  navigate_to_asset_pages target id menu table prompt pages later m early there ready =
      let ip = derive_target_ip target in
      rw (round-menu ip menu m) (
        ap (then_line ip) (
          navigate-pages ip pages (table ∷ prompt ∷ later) (id ∷ []) (ok later) early
            (navigate-asset ip id table prompt later there ready)))

  -- If the last page does not have the address either: an empty line is sent for each page before
  -- it, no id, and the search ends with an error that has the number of pages.
  navigate_to_asset_not_found :
      (target menu last : Text) (pages later : List Text) (status : PageStatus)
      → IsMenu menu
      → All (IsEarlyPage (derive_target_ip target)) pages
      → IsPage (derive_target_ip target) status last
      → status.total ≤ status.current
      → navigate_to_asset decode mfa_code target (menu ∷ (pages ++ (last ∷ later)))
        ≡ (derive_target_ip target ∷ map (λ page. []) pages, err (not_found status.total))
  unfolding navigate_to_asset navigate
  navigate_to_asset_not_found target menu last pages later status m early page final =
      let ip = derive_target_ip target in
      rw (round-menu ip menu m) (
        ap (then_line ip) (
          navigate-pages ip pages (last ∷ later) [] (err (not_found status.total)) early
            (rw (round-last ip status last final page) refl)
          ∙ ap (λ xs. (xs, err (not_found status.total))) (append-nil _)))
