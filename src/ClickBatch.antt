-- ===== src/ClickBatch.antt =====
-- src/store/postgres-link-store.ts: `recordClicks` and `recordClickBatch`, with what their UPDATE
-- does to the table of links. The codes of a batch are the keys of a map, so each comes once.
pub mod Increments
mod Tests
use wrap_link.Prelude.{
  ℕ, ◌+◌, ◌^◌, Bool, true, false, ◌&&◌, List, [], ◌∷◌, ◌++◌, Option, none, some, Text, all, Result,
  ok, throw, ◌>>=◌, ◌>>◌, guard, leb, ltb, if◌then◌else◌,
}
use wrap_link.Prelude.Maps.{Map, has, get, set, keys}
use wrap_link.PendingBatch.{LinkRow}

abbrev add_clicks : ℕ → LinkRow → LinkRow
add_clicks count row = record row { clicks = row.clicks + count }

unfoldable pub update_row : Option LinkRow → Text → ℕ → Map LinkRow → Map LinkRow × List Text
update_row none code count table = (table, [])
update_row (some row) code count table = (set code (add_clicks count row) table, code ∷ [])

-- The UPDATE statement: the table after it, and the codes that it returns.
unfoldable pub update_rows : Map ℕ → Map LinkRow → Map LinkRow × List Text
unfolding update_row
update_rows [] table = (table, [])
update_rows ((code, count) ∷ clicks) table =
    let (table', returned) = update_row (get code table) code count table in
    let (table'', more) = update_rows clicks table' in (table'', returned ++ more)

-- `Number.isSafeInteger(count) && count >= 1`
abbrev is_count : Text × ℕ → Bool
is_count (code, count) = leb 1 count && ltb count (2 ^ 53)

unfoldable pub record_clicks : Text → ℕ → Map LinkRow → Result (Map LinkRow)
unfolding update_rows
record_clicks code count table = do
  guard (is_count (code, count)) "click count must be a positive integer"
  ok (update_rows ((code, count) ∷ []) table).0

-- `codes.filter((code) => !matched.has(code))`
unfoldable pub unmatched : List Text → List Text → List Text
unmatched matched [] = []
unmatched matched (code ∷ rest) =
    let others = unmatched matched rest in if has code matched then others else code ∷ others

unfoldable pub record_click_batch : Map ℕ → Map LinkRow → Result (Map LinkRow × List Text)
unfolding update_rows unmatched
record_click_batch clicks table = do
  guard (all is_count clicks) "click count must be a positive integer"
  let (table', matched) = update_rows clicks table
  ok (table', unmatched matched (keys clicks))
