-- ===== src/Menu/Tests.antt =====
-- A search on a bastion with two pages, for an asset on the second.
use cross_host_ops.Base.{
  inl, ◌≡◌, refl, true, Bool, List, [], ◌∷◌, ◌++◌, ok, err, Result, Text, codes, newline, trim,
  arith, some,
}
use mathlib.Core.List.{flatten}
use cross_host_ops.Sentinel.{find_subslice}
use cross_host_ops.PtyShell.{looks_like_prompt}
use cross_host_ops.Resolver.{derive_target_ip}
use cross_host_ops.Menu.{
  Error, panicked, escape_char, strip_from, strip_ansi, as_bytes, parse_asset_rows,
  select_exact_asset_id, parse_page_status, contains_menu_prompt, contains_page_prompt,
}
use cross_host_ops.Menu.Navigate.{
  navigate_to_asset, navigate, round, react, table_round, without_match, new,
}
use cross_host_ops.Menu.Lines.{Transcript}
use cross_host_ops.Menu.Reached.{navigate_to_asset-Transcript}
use cross_host_ops.Menu.Ansi.{done, char, control, strip_ansi-Ansi}
use cross_host_ops.Menu.Pages.{navigate_to_asset_pages}

abbrev same : Text → Text
same s = s

abbrev code : Result Error Text
code = ok (codes "123456")

-- A line in green.
abbrev green : Text → Text
green s = escape_char ∷ (codes "[32m" ++ (s ++ (escape_char ∷ codes "[0m")))

uncoloured : strip_ansi (green (codes "Opt")) ≡ ok (codes "Opt")
unfolding strip_ansi strip_from as_bytes
uncoloured = refl

strip_ansi-Ansi_example :
    (strip_ansi (green (codes "页")) ≡ ok (codes "页"))
    × (strip_ansi (green (codes "页") ++ escape_char ∷ codes "页码") ≡ err panicked)
strip_ansi-Ansi_example =
    strip_ansi-Ansi (green (codes "页")) (codes "页") (codes "码") 39029
      (control (codes "32") b'm' (inl (omega arith), (inl (omega arith), tt))
        (omega arith, omega arith)
        (char 39029 (λ e. absurd (omega (arith, e)))
          (control (codes "0") b'm' (inl (omega arith), tt) (omega arith, omega arith) done)))
      (omega arith)

abbrev menu : Text
menu = green (codes "Opt> ")

abbrev page : Text
page = codes "1 | web | 10.0.0.7 | up" ++ (newline ∷ codes "页码：1，总页数：2，上一页：p:")

abbrev table : Text
table = codes "2 | db | 10.0.0.8 | up" ++ (newline ∷ codes "页码：2，总页数：2，上一页：p:")

abbrev prompt : Text
prompt = codes "[me@db ~]$ "

abbrev target : Text
target = codes "db-10-0-0-8"

navigate_to_asset_pages_example :
    navigate_to_asset same code target (menu ∷ page ∷ table ∷ prompt ∷ [])
    ≡ (codes "10.0.0.8" ∷ [] ∷ codes "2" ∷ [], ok [])
unfolding strip_ansi strip_from as_bytes parse_asset_rows select_exact_asset_id parse_page_status
    contains_menu_prompt contains_page_prompt trim find_subslice looks_like_prompt derive_target_ip
navigate_to_asset_pages_example =
    navigate_to_asset_pages same code target (codes "2") menu table prompt (page ∷ []) []
      (refl, refl) ((record { current = 1; total = 2 }, omega arith, (refl, refl, refl, refl)), tt)
      (refl, refl) (refl, refl)

-- A table whose first row has another address, which is cut behind the eighth character of it.
abbrev cut_table : List Text
cut_table =
    codes "1 | web | 10.0.0.8" ∷ (codes "1 | up" ++ (newline ∷ codes "2 | db | 10.0.0.8 | up")) ∷ []

whole_table_has_db :
    select_exact_asset_id (flatten cut_table) (codes "10.0.0.8") ≡ ok (some (codes "2"))
unfolding select_exact_asset_id parse_asset_rows strip_ansi strip_from as_bytes trim flatten
whole_table_has_db = refl

-- The lines lead to `web`.
cut_row_is_chosen :
    (navigate_to_asset same code target (menu ∷ cut_table)).0 ≡ codes "10.0.0.8" ∷ codes "1" ∷ []
unfolding navigate_to_asset navigate round react new table_round select_exact_asset_id
    parse_asset_rows strip_ansi strip_from as_bytes trim contains_menu_prompt find_subslice
    derive_target_ip looks_like_prompt
cut_row_is_chosen = refl

-- A row with no id is chosen with an empty line.
empty_id_is_chosen :
    select_exact_asset_id (codes " | db | 10.0.0.8 |") (codes "10.0.0.8") ≡ ok (some [])
unfolding select_exact_asset_id parse_asset_rows strip_ansi strip_from as_bytes trim
empty_id_is_chosen = refl

-- A dollar sign that ends a chunk of the table is taken for the prompt of the shell.
dollar_in_table :
    (navigate_to_asset same code target
      (menu ∷ codes "1 | cost in $ " ∷ codes "US | 10.0.0.8" ∷ [])).1
    ≡ ok (codes "US | 10.0.0.8" ∷ [])
unfolding navigate_to_asset navigate round react new table_round without_match select_exact_asset_id
    parse_asset_rows strip_ansi strip_from as_bytes trim contains_menu_prompt contains_page_prompt
    find_subslice derive_target_ip looks_like_prompt
dollar_in_table = refl

navigate_to_asset-Transcript_example :
    (m : Bool) × (s : Bool) × (a : Bool) × (seen : Text) × (later : Text) × (flatten
        (menu ∷ cut_table)
      ≡ seen ++ later)
    × Transcript same code
        (derive_target_ip target)
        m
        s
        a
        (navigate_to_asset same code target (menu ∷ cut_table)).0
        seen
    × ((unread : List Text)
        → (navigate_to_asset same code target (menu ∷ cut_table)).1 ≡ ok unread
        → s ≡ true)
navigate_to_asset-Transcript_example =
    navigate_to_asset-Transcript same code target (menu ∷ cut_table)
