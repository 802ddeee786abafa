-- ===== src/PendingBatch/Rows.antt =====
-- What the INSERT of a batch does to the table and returns.
use wrap_link.Prelude.{
  ◌≡◌, ◌≢◌, ◌⊎◌, refl, sym, ap, subst, ◌∙◌, inl, inr, true, false, ◌||◌, List, [], ◌∷◌, ◌++◌,
  Option, none, some, Text, text_eq, text_eq_refl, text_eq_iff, In, All, arith, Bool-cases,
}
use wrap_link.Prelude.Maps.{Map, has, get, set, get-set}
use wrap_link.Links.{PendingLink}
use wrap_link.PendingBatch.{LinkRow, row_of, insert_row, insert_rows}

abbrev pub Table : Type 0
Table = Map LinkRow

has-append : (c : Text) (xs ys : List Text) → has c (xs ++ ys) ≡ (has c xs || has c ys)
unfolding has
has-append c [] ys = refl
has-append c (x ∷ xs) ys = ground (arith, has-append c xs ys)

none-ne-some : {row : LinkRow} → ◌≢◌ {A = Option LinkRow} none (some row)
none-ne-some e = cc

-- Two codes are apart if one has a row and the other has none.
apart :
    (table : Table) (c d : Text) (row : LinkRow)
    → get c table ≡ none
    → get d table ≡ some row
    → text_eq c d ≡ false
apart table c d row absent found = elim (Bool-cases (text_eq c d)) [
  | inr other ↦ other
  | inl same ↦
      absurd (none-ne-some (sym absent ∙ ap (λ k. get k table) ((text_eq_iff c d).0 same) ∙ found))
]

insert_row_keep :
    (o : Option LinkRow) (link : PendingLink) (table : Table) (code : Text) (row : LinkRow)
    → get link.code table ≡ o
    → get code table ≡ some row
    → (get code (insert_row o link table).0 ≡ some row)
      × (has code (insert_row o link table).1 ≡ false)
unfolding insert_row has
insert_row_keep (some other) link table code row e h = (h, refl)
insert_row_keep none link table code row e h =
    let other = apart table link.code code row e h in
    (get-set link.code code (row_of link) table ∙ rw other h, rw other refl)

-- A row that is there stays as it is, and its code is not returned.
insert_rows_keep :
    (links : List PendingLink) (table : Table) (code : Text) (row : LinkRow)
    → get code table ≡ some row
    → (get code (insert_rows links table).0 ≡ some row)
      × (has code (insert_rows links table).1 ≡ false)
unfolding insert_rows has
insert_rows_keep [] table code row h = (h, refl)
insert_rows_keep (link ∷ links) table code row h =
    let (kept, absent) = insert_row_keep (get link.code table) link table code row refl h in
    let (kept', absent') =
      insert_rows_keep links (insert_row (get link.code table) link table).0 code row kept in
    (
      kept',
      has-append code (insert_row (get link.code table) link table).1
            (insert_rows links (insert_row (get link.code table) link table).0).1
          ∙ rw (absent, absent') refl,
    )

-- No two links have one code.
abbrev pub Distinct : List PendingLink → Type 0
Distinct [] = Unit
Distinct (link ∷ links) =
    All (λ (l : PendingLink). text_eq link.code l.code ≡ false) links × Distinct links

pub All-In :
    (P : PendingLink → Type 0) (l : PendingLink) (ls : List PendingLink) → All P ls → In l ls → P l
All-In P l (x ∷ ls) a (inl e) = subst P (sym e) a.0
All-In P l (x ∷ ls) a (inr i) = All-In P l ls a.1 i
All-In P l [] a i = absurd i

-- A link was inserted as it is, or its code had a row before.
abbrev pub Inserts : List Text → Table → PendingLink → Type 0
Inserts returned table l =
    (has l.code returned ≡ true) × (get l.code table ≡ some (row_of l))
    ⊎ (has l.code returned ≡ false) × ((row : LinkRow) × (get l.code table ≡ some row))

insert_head :
    (o : Option LinkRow) (link : PendingLink) (links : List PendingLink) (table : Table)
    → get link.code table ≡ o
    → Inserts
        ((insert_row o link table).1 ++ (insert_rows links (insert_row o link table).0).1)
        (insert_rows links (insert_row o link table).0).0
        link
unfolding insert_row has
insert_head (some row) link links table e =
    let (kept, absent) = insert_rows_keep links table link.code row e in inr (absent, (row, kept))
insert_head none link links table e =
    let put = get-set link.code link.code (row_of link) table ∙ rw (text_eq_refl link.code) refl in
    let (kept, _) =
      insert_rows_keep links (set link.code (row_of link) table) link.code (row_of link) put in
    inl (rw (text_eq_refl link.code) refl, kept)

returned_other :
    (o : Option LinkRow) (link : PendingLink) (table : Table) (c : Text)
    → text_eq link.code c ≡ false
    → has c (insert_row o link table).1 ≡ false
unfolding insert_row has
returned_other none link table c h = rw h refl
returned_other (some row) link table c h = refl

pub insert_rows_all :
    (links : List PendingLink) (table : Table) (l : PendingLink)
    → Distinct links
    → In l links
    → Inserts (insert_rows links table).1 (insert_rows links table).0 l
unfolding insert_rows
insert_rows_all [] table l d i = absurd i
insert_rows_all (link ∷ links) table l d (inl e) =
    subst
      (λ k.
        Inserts
          ((insert_row (get link.code table) link table).1
            ++ (insert_rows links (insert_row (get link.code table) link table).0).1)
          (insert_rows links (insert_row (get link.code table) link table).0).0 k)
      (sym e) (insert_head (get link.code table) link links table refl)
insert_rows_all (link ∷ links) table l d (inr i) =
    let table' = (insert_row (get link.code table) link table).0 in
    let first = (insert_row (get link.code table) link table).1 in
    let other =
      returned_other (get link.code table) link table l.code
        (All-In (λ (k : PendingLink). text_eq link.code k.code ≡ false) l links d.0 i) in
    let joined = has-append l.code first (insert_rows links table').1 ∙ rw other refl in
    elim (insert_rows_all links table' l d.1 i) [
      | inl (returned, found) ↦ inl (joined ∙ returned, found)
      | inr (absent, found) ↦ inr (joined ∙ absent, found)
    ]
