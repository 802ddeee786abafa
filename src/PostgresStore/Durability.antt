-- ===== src/PostgresStore/Durability.antt =====
-- The links of PostgreSQL are durable: no query takes a link back before it expires.
use wrap_link.PostgresStore.{
  Fate, answers, fails, loses_reply, Database, map_link, next_fate, other_fates, settle, query,
  new_row, insert_absent, create, select_live, find, clicked, record_click, postgres_link_store,
}
use wrap_link.PostgresStore.Rows.{
  shown_link, or_link, RowsKeep, RowsKeep-refl, shown_row, shown_row-IsLive, shown_live,
  query-Keeps, set_new-RowsKeep, set_same-RowsKeep,
}
use wrap_link.Prelude.{
  ◌+◌, ◌≡◌, ◌↔◌, refl, sym, ap, subst, ◌∙◌, Option, none, some, Text, text_eq_iff, Result, ok,
  throw, if◌then◌else◌,
}
use wrap_link.Prelude.Maps.{Map, get, set, get-set}
use wrap_link.Links.{Link, CreateLinkInput}
use wrap_link.Links.Contract.{IsLive, SameLink}
use wrap_link.Links.Durable.{Keeps, DurableStore}
use wrap_link.PendingBatch.{LinkRow}
use wrap_link.ClickBatch.{update_row, update_rows, record_clicks}

insert-Keeps :
    (found : Option LinkRow) (input : CreateLinkInput) (d : Database)
    → get input.code d.rows ≡ found
    → Keeps (λ s. s.now) shown_link d (insert_absent found input d).0
unfolding insert_absent
insert-Keeps (some row) input d e = query-Keeps d.rows none d (RowsKeep-refl d.rows)
insert-Keeps none input d e =
    query-Keeps (set input.code (new_row input d.now) d.rows)
      (some (map_link input.code (new_row input d.now))) d
      (set_new-RowsKeep input.code (new_row input d.now) d.rows e)

counted :
    (found : Option LinkRow) (code : Text) (rows : Map LinkRow)
    → get code rows ≡ found
    → RowsKeep rows (update_row found code 1 rows).0
unfolding update_row
counted none code rows e = RowsKeep-refl rows
counted (some row) code rows e =
    set_same-RowsKeep code row (record row { clicks = row.clicks + 1 }) rows e
      (record { same_target = refl; same_creation = refl; same_expiry = refl })

pub click-Keeps :
    (code : Text) (d : Database) → Keeps (λ s. s.now) shown_link d (record_click code d).0
unfolding record_click clicked record_clicks update_rows
click-Keeps code d =
    query-Keeps (update_row (get code d.rows) code 1 d.rows).0 tt d
      (counted (get code d.rows) code d.rows refl)

abbrev value_or : {A : Type 0} → A → Result A → A
value_or other (ok a) = a
value_or other (throw e) = other

settle_ok :
    {A : Type 0} (fate : Fate) (rows : Map LinkRow) (a b : A) (d d' : Database)
    → settle fate rows a d ≡ (d', ok b)
    → (a ≡ b) × (d'.rows ≡ rows) × (d'.now ≡ d.now)
unfolding settle
settle_ok answers rows a b d d' e =
    (ap (λ p. value_or a p.1) e, ap (λ p. p.0.rows) (sym e), ap (λ p. p.0.now) (sym e))
settle_ok fails rows a b d d' e = cc (ap (λ p. p.1) e)
settle_ok loses_reply rows a b d d' e = cc (ap (λ p. p.1) e)

-- The answer of a query that succeeded.
query_ok :
    {A : Type 0} (rows : Map LinkRow) (a b : A) (d d' : Database)
    → query rows a d ≡ (d', ok b)
    → (a ≡ b) × (d'.rows ≡ rows) × (d'.now ≡ d.now)
unfolding query
query_ok rows a b d d' e =
    settle_ok (next_fate d.fates) rows a b (record d { fates = other_fates d.fates }) d' e

pub find_shown :
    (code : Text) (d d' : Database) (found : Option Link)
    → find code d ≡ (d', ok found)
    → (shown_link code d ≡ found) × (shown_link code d' ≡ found)
unfolding find
find_shown code d d' found e =
    let (answer, rows, now) = query_ok d.rows (shown_link code d) found d d' e in
    (
      answer,
      ap (λ m. select_live (get code m) code d'.now) rows
          ∙ ap (λ t. select_live (get code d.rows) code t) now
          ∙ answer,
    )

-- A link that was returned stands in a row that was not there.
inserted :
    (old : Option LinkRow) (input : CreateLinkInput) (link : Link) (d d' : Database)
    → get input.code d.rows ≡ old
    → insert_absent old input d ≡ (d', ok (some link))
    → (get input.code d.rows ≡ none)
      × (map_link input.code (new_row input d.now) ≡ link)
      × (d'.rows ≡ set input.code (new_row input d.now) d.rows)
unfolding insert_absent
inserted (some row) input link d d' at e = cc ((query_ok d.rows none (some link) d d' e).0)
inserted none input link d d' at e =
    let (made, rows, now) =
      query_ok (set input.code (new_row input d.now) d.rows)
        (some (map_link input.code (new_row input d.now))) (some link) d d' e in
    (at, ap (or_link link) made, rows)

get-set_self :
    (code : Text) (row : LinkRow) (rows : Map LinkRow) → get code (set code row rows) ≡ some row
get-set_self code row rows =
    get-set code code row rows
    ∙ ap (λ b. if b then some row else get code rows) ((text_eq_iff code code).1 refl)

pub create_shown :
    (input : CreateLinkInput) (link : Link) (d d' : Database)
    → create input d ≡ (d', ok (some link))
    → IsLive link.expires_at d'.now
    → (link' : Link) × (shown_link link.code d' ≡ some link') × SameLink link link'
unfolding create
create_shown input link d d' e live =
    let (absent, made, rows) = inserted (get input.code d.rows) input link d d' refl e in
    (
      map_link input.code (new_row input d.now),
      ap (λ l. shown_link l.code d') (sym made)
          ∙ ap (λ m. select_live (get input.code m) input.code d'.now) rows
          ∙ ap (λ o. select_live o input.code d'.now)
              (get-set_self input.code (new_row input d.now) d.rows)
          ∙ shown_live input.code (new_row input d.now) d'.now
              (subst (λ l. IsLive l.expires_at d'.now) (sym made) live),
      record {
        same_code = ap (λ l. l.code) (sym made);
        same_target = ap (λ l. l.target_url) (sym made);
        same_creation = ap (λ l. l.created_at) (sym made);
        same_expiry = ap (λ l. l.expires_at) (sym made);
      },
    )

pub create_new :
    (input : CreateLinkInput) (link : Link) (d d' : Database)
    → create input d ≡ (d', ok (some link))
    → (shown_link link.code d ≡ none)
      × (link.code ≡ input.code)
      × (link.target_url ≡ input.target_url)
      × (link.expires_at ≡ input.expires_at)
unfolding create select_live
create_new input link d d' e =
    let (absent, made, rows) = inserted (get input.code d.rows) input link d d' refl e in
    (
      ap (λ l. shown_link l.code d) (sym made) ∙ ap (λ o. select_live o input.code d.now) absent,
      ap (λ l. l.code) (sym made),
      ap (λ l. l.target_url) (sym made),
      ap (λ l. l.expires_at) (sym made),
    )

pub create-Keeps :
    (input : CreateLinkInput) (d : Database) → Keeps (λ s. s.now) shown_link d (create input d).0
unfolding create
create-Keeps input d = insert-Keeps (get input.code d.rows) input d refl

pub find-Keeps : (code : Text) (d : Database) → Keeps (λ s. s.now) shown_link d (find code d).0
unfolding find
find-Keeps code d = query-Keeps d.rows (shown_link code d) d (RowsKeep-refl d.rows)

unfoldable pub database_laws : DurableStore postgres_link_store
database_laws = record {
  time = λ d. d.now;
  shown = shown_link;
  create-Keeps = create-Keeps;
  find-Keeps = find-Keeps;
  click-Keeps = click-Keeps;
  create-shown = create_shown;
  create-new = create_new;
  find-shown = find_shown;
  shown-code = λ code d link e.
      let (row, at, made) = shown_row (get code d.rows) code d.now link e in ap (λ l. l.code) made;
}

-- The laws' `shown`, by the rows of the table alone.
abbrev Shows : Text → Database → Link → Type 0
Shows code d link =
    (row : LinkRow) × (get code d.rows ≡ some row)
    × IsLive row.expires_at d.now
    × (link ≡ map_link code row)

shows :
    (code : Text) (d : Database) (link : Link) → shown_link code d ≡ some link → Shows code d link
shows code d link e =
    let (row, at, made) = shown_row (get code d.rows) code d.now link e in
    (
      row,
      at,
      shown_row-IsLive row code d.now link (ap (λ o. select_live o code d.now) (sym at) ∙ e),
      made,
    )

is_shown :
    (code : Text) (d : Database) (link : Link) → Shows code d link → shown_link code d ≡ some link
is_shown code d link (row, at, live, made) =
    ap (λ o. select_live o code d.now) at ∙ shown_live code row d.now live ∙ ap some (sym made)

-- PostgreSQL keeps the contract of a durable store, at any fate of its queries, with the time of
-- `NOW()` as its time: it shows a link for a code exactly if the table has a row for the code with
-- that link, whose expiry, if it has one, is still to come; a `find` that returns gives what is
-- shown; a link that `create` returned was not shown before, has what was asked for, and is shown
-- until it expires; and no call of `create`, `find` or `recordClick` takes back a link that is shown
-- and has not expired, nor changes anything in it but its clicks.
postgres_durable :
    (laws : DurableStore postgres_link_store) × ((d : Database) → laws.time d ≡ d.now)
    × ((code : Text) (d : Database) (link : Link)
        → (laws.shown code d ≡ some link) ↔ Shows code d link)
unfolding database_laws
postgres_durable =
    (database_laws, λ d. refl, λ code d link. (shows code d link, is_shown code d link))
