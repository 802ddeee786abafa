-- ===== src/PendingBatch.antt =====
-- src/store/postgres-link-store.ts: `insertPendingBatch`, with what its two statements do to the
-- table of links. What other sessions do to the table between the statements is a parameter.
pub mod Rows
pub mod Reports
pub mod Replay
mod Tests
use wrap_link.Prelude.{
  ℕ, Bool, true, false, not, ◌&&◌, List, [], ◌∷◌, ◌++◌, Option, none, some, Text, text_eq, ◌==◌,
  if◌then◌else◌,
}
use wrap_link.Prelude.Maps.{Map, has, get, set}
use wrap_link.Links.{PendingLink}
use wrap_link.SyncWorker.Run.{Inserted}

-- A row; the code is its key.
pub record LinkRow : Type 0 where
  pub target_url : Text
  pub created_ms : ℕ
  pub expires_at : Option ℕ
  pub clicks : ℕ

abbrev pub row_of : PendingLink → LinkRow
row_of link = record {
  target_url = link.target_url;
  created_ms = link.created_at;
  expires_at = link.expires_at;
  clicks = 0;
}

-- The links whose codes come first, in their order: the values of the map `unique`.
unfoldable pub first_of_each : List Text → List PendingLink → List PendingLink
first_of_each seen [] = []
first_of_each seen (link ∷ links) =
    let rest = first_of_each seen links in
    let rest' = first_of_each (link.code ∷ seen) links in
    if has link.code seen then rest else link ∷ rest'

-- `ON CONFLICT (code) DO NOTHING RETURNING code` for one row.
insert_row : Option LinkRow → PendingLink → Map LinkRow → Map LinkRow × List Text
insert_row none link table = (set link.code (row_of link) table, link.code ∷ [])
insert_row (some row) link table = (table, [])

-- The INSERT statement: the table after it, and the codes that it returns.
unfoldable pub insert_rows : List PendingLink → Map LinkRow → Map LinkRow × List Text
unfolding insert_row
insert_rows [] table = (table, [])
insert_rows (link ∷ links) table =
    let (table', returned) = insert_row (get link.code table) link table in
    let (table'', more) = insert_rows links table' in (table'', returned ++ more)

unfoldable pub not_returned : List Text → List PendingLink → List PendingLink
not_returned codes [] = []
not_returned codes (link ∷ links) =
    let rest = not_returned codes links in if has link.code codes then rest else link ∷ rest

unfoldable pub is_replay : Option LinkRow → PendingLink → Bool
is_replay none link = false
is_replay (some row) link =
    text_eq row.target_url link.target_url && row.created_ms == link.created_at

-- The loop over the links that were not inserted, over the rows of the SELECT.
unfoldable pub sort_existing : List PendingLink → Map LinkRow → Inserted
unfolding is_replay
sort_existing [] rows = record { persisted = []; conflicts = [] }
sort_existing (link ∷ links) rows =
    let rest = sort_existing links rows in
    if is_replay (get link.code rows) link
    then record rest { persisted = link.code ∷ rest.persisted }
    else record rest { conflicts = link ∷ rest.conflicts }

add_persisted : List Text → Inserted → Inserted
add_persisted codes r = record r { persisted = codes ++ r.persisted }

unfoldable pub insert_pending_batch :
    (Map LinkRow → Map LinkRow) → List PendingLink → Map LinkRow → Map LinkRow × Inserted
unfolding first_of_each insert_rows not_returned sort_existing add_persisted
insert_pending_batch between links table =
    let batch = first_of_each [] links in
    let (table', returned) = insert_rows batch table in
    let table'' = between table' in
    (table'', add_persisted returned (sort_existing (not_returned returned batch) table''))
