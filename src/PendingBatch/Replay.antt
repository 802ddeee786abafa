-- ===== src/PendingBatch/Replay.antt =====
-- A batch that comes again.
use wrap_link.Prelude.{
  ◌≡◌, refl, ap, ◌∙◌, true, List, [], ◌∷◌, ◌++◌, Option, some, Text, text_eq_iff, ==_iff, All,
}
use wrap_link.Prelude.Maps.{has, get}
use wrap_link.Links.{PendingLink}
use wrap_link.SyncWorker.Run.{Inserted}
use wrap_link.PendingBatch.{
  LinkRow, first_of_each, insert_row, insert_rows, not_returned, is_replay, sort_existing,
  add_persisted, insert_pending_batch,
}
use wrap_link.PendingBatch.Rows.{Table}
use wrap_link.PendingBatch.Reports.{Owns}

abbrev pub codes_of : List PendingLink → List Text
codes_of [] = []
codes_of (l ∷ ls) = l.code ∷ codes_of ls

-- Every link has its row.
abbrev pub AllStored : Table → List PendingLink → Type 0
AllStored table =
    All (λ (l : PendingLink). (row : LinkRow) × (get l.code table ≡ some row) × Owns l row)

stored_first :
    (l : PendingLink) (row : LinkRow) (ls : List PendingLink) (table : Table)
    → insert_rows ls table ≡ (table, [])
    → ◌≡◌ {A = Table × List Text}
        (
          (insert_rows ls (insert_row (some row) l table).0).0,
          (insert_row (some row) l table).1 ++ (insert_rows ls (insert_row (some row) l table).0).1,
        )
        (table, [])
unfolding insert_row
stored_first l row ls table h = h

insert_rows-stored :
    (ls : List PendingLink) (table : Table)
    → AllStored table ls
    → insert_rows ls table ≡ (table, [])
unfolding insert_rows
insert_rows-stored [] table a = refl
insert_rows-stored (l ∷ ls) table ((row, e, _), rest) =
    ap
      (λ (o : Option LinkRow). (
        (insert_rows ls (insert_row o l table).0).0,
        (insert_row o l table).1 ++ (insert_rows ls (insert_row o l table).0).1,
      ))
      e
    ∙ stored_first l row ls table (insert_rows-stored ls table rest)

not_returned-none : (ls : List PendingLink) → not_returned [] ls ≡ ls
unfolding not_returned has
not_returned-none [] = refl
not_returned-none (l ∷ ls) = ap (◌∷◌ l) (not_returned-none ls)

sort_existing-stored :
    (ls : List PendingLink) (table : Table)
    → AllStored table ls
    → sort_existing ls table ≡ record { persisted = codes_of ls; conflicts = [] }
unfolding sort_existing is_replay
sort_existing-stored [] table a = refl
sort_existing-stored (l ∷ ls) table ((row, e, owns), rest) =
    let replay : is_replay (get l.code table) l ≡ true =
      ap (λ o. is_replay o l) e
      ∙ rw
          (
            (text_eq_iff row.target_url l.target_url).1 owns.0,
            (==_iff row.created_ms l.created_at).1 owns.1,
          )
          refl in
    rw (replay, sort_existing-stored ls table rest) refl

-- A batch whose links all have their rows already, as after an attempt that was committed and not
-- acknowledged, leaves the table as it is, and every link is reported as persisted and none as a
-- conflict.
pub insert_pending_batch_replay :
    (links : List PendingLink) (table : Table)
    → AllStored table (first_of_each [] links)
    → insert_pending_batch (λ t. t) links table
      ≡ (table, record { persisted = codes_of (first_of_each [] links); conflicts = [] })
unfolding insert_pending_batch add_persisted
insert_pending_batch_replay links table a =
    let batch = first_of_each [] links in
    ap
      (λ (p : Table × List Text).
        (p.0, add_persisted p.1 (sort_existing (not_returned p.1 batch) p.0)))
      (insert_rows-stored batch table a)
    ∙ ap (λ (ls : List PendingLink). (table, add_persisted [] (sort_existing ls table)))
        (not_returned-none batch)
    ∙ ap (λ (r : Inserted). (table, add_persisted [] r)) (sort_existing-stored batch table a)
