-- ===== src/Menu/Navigate.antt =====
-- `navigate_to_asset` of src/daemon/gateway/jumpserver.rs, as a machine that takes one chunk of the
-- channel in each round and answers with a line or not.
--
-- `decode` stands for `String::from_utf8_lossy`, and `mfa_code` for what the secret or the user
-- gives when the bastion asks for a second factor. Writing to the channel succeeds; the channel
-- closes behind the chunks, which is what a read that times out comes to.
use cross_host_ops.Base.{
  Bool, true, false, not, ◌&&◌, List, [], ◌∷◌, ◌++◌, Option, none, some, ltb, if◌then◌else◌, Result,
  ok, err, ◌>>=◌, Text, codes,
}
use cross_host_ops.Resolver.{derive_target_ip}
use cross_host_ops.PtyShell.{looks_like_prompt}
use cross_host_ops.Menu.{
  Error, not_found, no_page_status, candidates, closed, strip_ansi, JumpserverAssetRow,
  parse_asset_rows, select_exact_asset_id, PageStatus, parse_page_status, contains,
  contains_menu_prompt, contains_page_prompt,
}

pub record Navigation : Type 0 where
  pub pending : Text
  pub mfa_sent : Bool
  pub search_sent : Bool
  pub asset_id_sent : Bool

unfoldable pub new : Navigation
new = record { pending = []; mfa_sent = false; search_sent = false; asset_id_sent = false }

-- What one round comes to: a line is written, or more output is needed, or the shell is there.
pub data Round : Type 0 where
  writes : Text → Navigation → Round
  waits : Navigation → Round
  arrives : Round

abbrev pub prompt_suffixes : List Text
prompt_suffixes = codes "$ " ∷ (codes "# " ∷ [])

-- A test that is made only where the first flag holds.
abbrev pub guarded : Bool → Result Error Bool → Result Error Bool
guarded false test = ok false
guarded true test = test

abbrev pub choose : Text → Navigation → Round
choose id st = writes id (record st { pending = []; asset_id_sent = true })

abbrev pub turn_page : Navigation → Round
turn_page st = writes [] (record st { pending = [] })

abbrev pub page_round : Navigation → Option PageStatus → Result Error (Option Round)
page_round st none = err no_page_status
page_round st (some status) =
    if ltb status.current status.total
    then ok (some (turn_page st))
    else err (not_found status.total)

abbrev pub no_candidates : List JumpserverAssetRow → Result Error (Option Round)
no_candidates [] = ok none
no_candidates (row ∷ rows) = err candidates

-- No row has the address.
unfoldable pub without_match : Text → Navigation → Result Error (Option Round)
without_match text st = contains_page_prompt text >>= λ paged.
    if paged
    then (parse_page_status text >>= page_round st)
    else (contains_menu_prompt text >>= λ menu.
        if menu then (parse_asset_rows text >>= no_candidates) else ok none)

abbrev pub with_match : Text → Navigation → Option Text → Result Error (Option Round)
with_match text st none = without_match text st
with_match text st (some id) = ok (some (choose id st))

-- The table of a search, of which no row was chosen yet.
unfoldable pub table_round : Text → Text → Navigation → Result Error (Option Round)
unfolding without_match
table_round ip text st =
    if st.search_sent && not st.asset_id_sent
    then (select_exact_asset_id text ip >>= with_match text st)
    else ok none

abbrev pub prompt_round : Navigation → Option Round → Round
prompt_round st (some r) = r
prompt_round st none =
    if st.search_sent && looks_like_prompt st.pending prompt_suffixes then arrives else waits st

abbrev pub asks_mfa : Text → Result Error Bool
asks_mfa text = strip_ansi text >>= λ clean. ok (contains (codes "MFA") clean)

-- The lines that were written, and the chunks that are left when the shell is there.
abbrev pub Run : Type 0
Run = List Text × Result Error (List Text)

abbrev pub then_line : Text → Run → Run
then_line line (lines, end) = (line ∷ lines, end)

abbrev pub after_round : (Navigation → Run) → List Text → Result Error Round → Run
after_round go unread (err e) = ([], err e)
after_round go unread (ok (writes line st)) = then_line line (go st)
after_round go unread (ok (waits st)) = go st
after_round go unread (ok arrives) = ([], ok unread)

module _ (decode : Text → Text) (mfa_code : Result Error Text) (ip : Text) where
  -- Behind the menu: the table, and then the prompt of the shell.
  abbrev pub react_search : Text → Navigation → Result Error Round
  react_search text st = table_round ip text st >>= λ r. ok (prompt_round st r)

  abbrev pub react_menu : Text → Navigation → Result Error Round
  react_menu text st = guarded (not st.search_sent) (contains_menu_prompt text) >>= λ menu.
      if menu
      then ok (writes ip (record st { pending = []; search_sent = true }))
      else react_search text st

  -- What a round does with the output that is pending.
  unfoldable pub react : Text → Navigation → Result Error Round
  unfolding table_round
  react text st = guarded (not st.mfa_sent) (asks_mfa text) >>= λ mfa.
      if mfa
      then (mfa_code >>= λ code. ok (writes code (record st { pending = []; mfa_sent = true })))
      else react_menu text st

  abbrev pub extend_pending : Text → Navigation → Navigation
  extend_pending chunk st = record st { pending = st.pending ++ chunk }

  unfoldable pub round : Text → Navigation → Result Error Round
  unfolding react
  round chunk st = let st' = extend_pending chunk st in react (decode st'.pending) st'

  -- The rounds, chunk by chunk.
  unfoldable pub navigate : List Text → Navigation → Run
  unfolding round
  navigate [] st = ([], err closed)
  navigate (chunk ∷ chunks) st = after_round (navigate chunks) chunks (round chunk st)

unfoldable pub navigate_to_asset : (Text → Text) → Result Error Text → Text → List Text → Run
unfolding navigate new
navigate_to_asset decode mfa_code target chunks =
    navigate decode mfa_code (derive_target_ip target) chunks new
