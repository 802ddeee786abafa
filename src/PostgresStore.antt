-- ===== src/PostgresStore.antt =====
-- src/store/postgres-link-store.ts: `create`, `find`, `recordClick`, `size` and `isHealthy` of
-- `PostgresLinkStore`, with what their statements do to the table of links. A query answers, fails, or
-- fails after its effect.
pub mod Rows
pub mod Durability
mod Tests
use wrap_link.Prelude.{
  ℕ, ◌+◌, Bool, true, false, List, [], ◌∷◌, Option, none, some, Text, length, Result, ok, throw,
  if◌then◌else◌,
}
use wrap_link.Prelude.Maps.{Map, get, set}
use wrap_link.Links.{LinkStore, Link, CreateLinkInput}
use wrap_link.MemoryStore.{has_expired}
use wrap_link.PendingBatch.{LinkRow}
use wrap_link.ClickBatch.{record_clicks}

pub data Fate : Type 0 where
  answers fails loses_reply : Fate

-- The table, the time of `NOW()`, and the fates of the next queries; after those all answer.
pub record Database : Type 0 where
  pub rows : Map LinkRow
  pub now : ℕ
  pub fates : List Fate

abbrev pub map_link : Text → LinkRow → Link
map_link code row = record {
  code = code;
  target_url = row.target_url;
  created_at = row.created_ms;
  expires_at = row.expires_at;
  clicks = row.clicks;
}

next_fate : List Fate → Fate
next_fate [] = answers
next_fate (fate ∷ fates) = fate

other_fates : List Fate → List Fate
other_fates [] = []
other_fates (fate ∷ fates) = fates

-- `rows` and `a` are the table after the statement and what it returns.
settle : {A : Type 0} → Fate → Map LinkRow → A → Database → Database × Result A
settle answers rows a d = (record d { rows = rows }, ok a)
settle fails rows a d = (d, throw "query failed")
settle loses_reply rows a d = (record d { rows = rows }, throw "query failed")

unfoldable pub query : {A : Type 0} → Map LinkRow → A → Database → Database × Result A
unfolding next_fate other_fates settle
query rows a d = settle (next_fate d.fates) rows a (record d { fates = other_fates d.fates })

abbrev pub new_row : CreateLinkInput → ℕ → LinkRow
new_row input now = record {
  target_url = input.target_url;
  created_ms = now;
  expires_at = input.expires_at;
  clicks = 0;
}

-- `INSERT ... ON CONFLICT (code) DO NOTHING RETURNING ...`
insert_absent : Option LinkRow → CreateLinkInput → Database → Database × Result (Option Link)
unfolding query
insert_absent (some row) input d = query d.rows none d
insert_absent none input d =
    query (set input.code (new_row input d.now) d.rows)
      (some (map_link input.code (new_row input d.now))) d

unfoldable pub create : CreateLinkInput → Database → Database × Result (Option Link)
unfolding insert_absent
create input d = insert_absent (get input.code d.rows) input d

-- `WHERE code = $1 AND (expires_at IS NULL OR expires_at > NOW())`
unfoldable pub select_live : Option LinkRow → Text → ℕ → Option Link
select_live none code now = none
select_live (some row) code now =
    if has_expired row.expires_at now then none else some (map_link code row)

unfoldable pub find : Text → Database → Database × Result (Option Link)
unfolding select_live query
find code d = query d.rows (select_live (get code d.rows) code d.now) d

clicked : Result (Map LinkRow) → Database → Database × Result (Unit {0})
unfolding query
clicked (throw e) d = (d, throw e)
clicked (ok rows) d = query rows tt d

-- `recordClick`: `recordClicks` with a count of one.
unfoldable pub record_click : Text → Database → Database × Result (Unit {0})
unfolding clicked
record_click code d = clicked (record_clicks code 1 d.rows) d

unfoldable pub size : Database → Database × Result ℕ
unfolding query
size d = query d.rows (length d.rows) d

healthy_after : Database × Result (Unit {0}) → Database × Result Bool
healthy_after (d, ok _) = (d, ok true)
healthy_after (d, throw e) = (d, ok false)

unfoldable pub check_health : Database → Database × Result Bool
unfolding query healthy_after
check_health d = healthy_after (query d.rows tt d)

abbrev pub postgres_link_store : LinkStore
postgres_link_store = record {
  State = Database;
  create_link = create;
  find_link = find;
  click_link = record_click;
  count_links = size;
  is_healthy = check_health;
}
