-- ===== src/PostgresStore/Rows.antt =====
-- The table of links: what a row shows, and changes that keep every row's link.
use wrap_link.PostgresStore.{
  Fate, answers, fails, loses_reply, Database, map_link, next_fate, other_fates, settle, query,
  select_live,
}
use wrap_link.Prelude.{
  ℕ, ◌≡◌, refl, sym, ap, subst, ◌∙◌, inl, inr, false, Option, none, some, Text, text_eq,
  text_eq_iff, Bool-cases, if◌then◌else◌, arith,
}
use wrap_link.Prelude.Maps.{Map, get, set, get-set}
use wrap_link.Links.{Link}
use wrap_link.Links.Contract.{IsLive}
use wrap_link.Links.Durable.{Keeps}
use wrap_link.MemoryStore.{has_expired}
use wrap_link.MemoryStore.Timed.{has_expired-IsLive}
use wrap_link.PendingBatch.{LinkRow}

-- The link that the table has for a code, unless it has expired.
abbrev pub shown_link : Text → Database → Option Link
shown_link code d = select_live (get code d.rows) code d.now

abbrev pub or_link : Link → Option Link → Link
or_link other none = other
or_link other (some l) = l

abbrev pub or_row : LinkRow → Option LinkRow → LinkRow
or_row other none = other
or_row other (some r) = r

-- Equal in all but the clicks.
pub record SameRow (a b : LinkRow) : Type 0 where
  pub same_target : a.target_url ≡ b.target_url
  pub same_creation : a.created_ms ≡ b.created_ms
  pub same_expiry : a.expires_at ≡ b.expires_at

abbrev pub RowsKeep : Map LinkRow → Map LinkRow → Type 0
RowsKeep rows rows' =
    (code : Text) (row : LinkRow)
    → get code rows ≡ some row
    → (row' : LinkRow) × (get code rows' ≡ some row') × SameRow row row'

SameRow-refl : (row : LinkRow) → SameRow row row
SameRow-refl row = record { same_target = refl; same_creation = refl; same_expiry = refl }

pub RowsKeep-refl : (rows : Map LinkRow) → RowsKeep rows rows
RowsKeep-refl rows code row e = (row, e, SameRow-refl row)

IsLive-not_expired : (e : Option ℕ) (now : ℕ) → IsLive e now → has_expired e now ≡ false
IsLive-not_expired none now live = refl
IsLive-not_expired (some at) now live = ground arith

-- What a row that is shown tells of the link.
pub shown_row :
    (found : Option LinkRow) (code : Text) (now : ℕ) (link : Link)
    → select_live found code now ≡ some link
    → (row : LinkRow) × (found ≡ some row) × (link ≡ map_link code row)
unfolding select_live
shown_row none code now link e = cc
shown_row (some row) code now link e = elim (Bool-cases (has_expired row.expires_at now)) [
  | inl over ↦ cc (sym e ∙ ap (λ b. if b then none else some (map_link code row)) over)
  | inr left ↦ (
    row,
    refl,
    ap (or_link link) (sym e ∙ ap (λ b. if b then none else some (map_link code row)) left),
  )
]

-- A row that is shown has not expired.
pub shown_row-IsLive :
    (row : LinkRow) (code : Text) (now : ℕ) (link : Link)
    → select_live (some row) code now ≡ some link
    → IsLive row.expires_at now
unfolding select_live
shown_row-IsLive row code now link e = elim (Bool-cases (has_expired row.expires_at now)) [
  | inl over ↦ cc (sym e ∙ ap (λ b. if b then none else some (map_link code row)) over)
  | inr left ↦ has_expired-IsLive row.expires_at now left
]

pub shown_live :
    (code : Text) (row : LinkRow) (now : ℕ)
    → IsLive row.expires_at now
    → select_live (some row) code now ≡ some (map_link code row)
unfolding select_live
shown_live code row now live =
    ap (λ b. if b then none else some (map_link code row))
      (IsLive-not_expired row.expires_at now live)

rows-Keeps :
    (d d' : Database)
    → d.now ≡ d'.now
    → RowsKeep d.rows d'.rows
    → Keeps (λ s. s.now) shown_link d d'
rows-Keeps d d' same keep = (
  omega (arith, same),
  λ code link e live.
      let (row, at, made) = shown_row (get code d.rows) code d.now link e in
      let (row', at', same_row) = keep code row at in
      (
        map_link code row',
        ap (λ o. select_live o code d'.now) at'
            ∙ shown_live code row' d'.now (
                subst (λ x. IsLive x d'.now) (ap (λ l. l.expires_at) made ∙ same_row.same_expiry)
                  live),
        record {
          same_code = ap (λ l. l.code) made;
          same_target = ap (λ l. l.target_url) made ∙ same_row.same_target;
          same_creation = ap (λ l. l.created_at) made ∙ same_row.same_creation;
          same_expiry = ap (λ l. l.expires_at) made ∙ same_row.same_expiry;
        },
      ),
)

settle-Keeps :
    {A : Type 0} (fate : Fate) (rows : Map LinkRow) (a : A) (d : Database)
    → RowsKeep d.rows rows
    → Keeps (λ s. s.now) shown_link d (settle fate rows a d).0
unfolding settle
settle-Keeps answers rows a d keep = rows-Keeps d (record d { rows = rows }) refl keep
settle-Keeps fails rows a d keep = rows-Keeps d d refl (RowsKeep-refl d.rows)
settle-Keeps loses_reply rows a d keep = rows-Keeps d (record d { rows = rows }) refl keep

pub query-Keeps :
    {A : Type 0} (rows : Map LinkRow) (a : A) (d : Database)
    → RowsKeep d.rows rows
    → Keeps (λ s. s.now) shown_link d (query rows a d).0
unfolding query
query-Keeps rows a d keep =
    settle-Keeps (next_fate d.fates) rows a (record d { fates = other_fates d.fates }) keep

pub set_new-RowsKeep :
    (code : Text) (row : LinkRow) (rows : Map LinkRow)
    → get code rows ≡ none
    → RowsKeep rows (set code row rows)
set_new-RowsKeep code row rows absent other held e = elim (Bool-cases (text_eq code other)) [
  | inl same ↦ cc (sym e ∙ ap (λ k. get k rows) (sym ((text_eq_iff code other).0 same)) ∙ absent)
  | inr differs ↦ (
    held,
    get-set code other row rows ∙ ap (λ b. if b then some row else get other rows) differs ∙ e,
    SameRow-refl held,
  )
]

pub set_same-RowsKeep :
    (code : Text) (old row : LinkRow) (rows : Map LinkRow)
    → get code rows ≡ some old
    → SameRow old row
    → RowsKeep rows (set code row rows)
set_same-RowsKeep code old row rows at same other held e = elim (Bool-cases (text_eq code other)) [
  | inl equal ↦ (
    row,
    get-set code other row rows ∙ ap (λ b. if b then some row else get other rows) equal,
    subst (λ r. SameRow r row)
        (ap (or_row held) (sym at ∙ ap (λ k. get k rows) ((text_eq_iff code other).0 equal) ∙ e))
        same,
  )
  | inr differs ↦ (
    held,
    get-set code other row rows ∙ ap (λ b. if b then some row else get other rows) differs ∙ e,
    SameRow-refl held,
  )
]
