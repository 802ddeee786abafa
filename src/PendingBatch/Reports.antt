-- ===== src/PendingBatch/Reports.antt =====
-- What is reported of a batch is what is in the table.
use wrap_link.Prelude.{
  ◌≡◌, ◌≢◌, ◌⊎◌, refl, sym, ap, subst, ◌∙◌, inl, inr, Bool, true, false, ◌&&◌, ◌||◌, List, [], ◌∷◌,
  ◌++◌, Option, some, Text, text_eq, text_eq_iff, ◌==◌, ==_iff, In, All, Bool-cases,
}
use wrap_link.Prelude.Maps.{has, get}
use wrap_link.Links.{PendingLink}
use wrap_link.SyncWorker.Run.{Inserted}
use wrap_link.PendingBatch.{
  LinkRow, row_of, first_of_each, insert_rows, not_returned, is_replay, sort_existing,
  add_persisted, insert_pending_batch,
}
use wrap_link.PendingBatch.Rows.{Table, Distinct, insert_rows_all}

either : (x y : Bool) → (x || y) ≡ false → (x ≡ false) × (y ≡ false)
either true y h = cc
either false y h = (refl, h)

fresh_others :
    (code : Text) (seen : List Text) (ls : List PendingLink)
    → All (λ (l : PendingLink). has l.code (code ∷ seen) ≡ false) ls
    → All (λ (l : PendingLink). text_eq code l.code ≡ false) ls
      × All (λ (l : PendingLink). has l.code seen ≡ false) ls
unfolding has
fresh_others code seen [] a = (tt, tt)
fresh_others code seen (l ∷ ls) a =
    let (x, y) = either (text_eq code l.code) (has l.code seen) a.0 in
    let (xs, ys) = fresh_others code seen ls a.1 in ((x, xs), (y, ys))

first_of_each-Distinct :
    (seen : List Text) (links : List PendingLink)
    → Distinct (first_of_each seen links)
      × All (λ (l : PendingLink). has l.code seen ≡ false) (first_of_each seen links)
unfolding first_of_each
first_of_each-Distinct seen [] = (tt, tt)
first_of_each-Distinct seen (link ∷ links) = elim (Bool-cases (has link.code seen)) [
  | inl known ↦ rw known (first_of_each-Distinct seen links)
  | inr new ↦
      let (d, a) = first_of_each-Distinct (link.code ∷ seen) links in
      let (others, rest) = fresh_others link.code seen (first_of_each (link.code ∷ seen) links) a in
      rw new ((others, d), (new, rest))
]

In-not_returned :
    (codes : List Text) (l : PendingLink) (ls : List PendingLink)
    → has l.code codes ≡ false
    → In l ls
    → In l (not_returned codes ls)
unfolding not_returned
In-not_returned codes l [] h i = absurd i
In-not_returned codes l (x ∷ ls) h (inl e) =
    rw (ap (λ (k : PendingLink). has k.code codes) (sym e) ∙ h) (inl e)
In-not_returned codes l (x ∷ ls) h (inr i) = elim (Bool-cases (has x.code codes)) [
  | inl known ↦ rw known (In-not_returned codes l ls h i)
  | inr new ↦ rw new (inr (In-not_returned codes l ls h i))
]

In-has : (c : Text) (xs : List Text) → has c xs ≡ true → In c xs
unfolding has
In-has c [] h = cc
In-has c (x ∷ xs) h = elim (Bool-cases (text_eq x c)) [
  | inl same ↦ inl (sym ((text_eq_iff x c).0 same))
  | inr other ↦ inr (In-has c xs (rw other at h))
]

In-left : (c : Text) (xs ys : List Text) → In c xs → In c (xs ++ ys)
In-left c [] ys i = absurd i
In-left c (x ∷ xs) ys (inl e) = inl e
In-left c (x ∷ xs) ys (inr i) = inr (In-left c xs ys i)

In-right : (c : Text) (xs ys : List Text) → In c ys → In c (xs ++ ys)
In-right c [] ys i = i
In-right c (x ∷ xs) ys i = inr (In-right c xs ys i)

-- A link that was not inserted is reported by what its row says.
abbrev Reported : Inserted → Table → PendingLink → Type 0
Reported r rows l =
    (is_replay (get l.code rows) l ≡ true) × In l.code r.persisted
    ⊎ (is_replay (get l.code rows) l ≡ false) × In l r.conflicts

sort_existing-Reported :
    (ls : List PendingLink) (rows : Table) (l : PendingLink)
    → In l ls
    → Reported (sort_existing ls rows) rows l
unfolding sort_existing
sort_existing-Reported [] rows l i = absurd i
sort_existing-Reported (x ∷ ls) rows l (inl e) =
    subst (λ k. Reported (sort_existing (x ∷ ls) rows) rows k) (sym e)
      (elim (Bool-cases (is_replay (get x.code rows) x)) [
        | inl replay ↦ inl (replay, rw replay (inl refl))
        | inr other ↦ inr (other, rw other (inl refl))
      ])
sort_existing-Reported (x ∷ ls) rows l (inr i) = elim (sort_existing-Reported ls rows l i) [
  | inl (replay, p) ↦ elim (Bool-cases (is_replay (get x.code rows) x)) [
    | inl replay' ↦ inl (replay, rw replay' (inr p))
    | inr other' ↦ inl (replay, rw other' p)
  ]
  | inr (other, c) ↦ elim (Bool-cases (is_replay (get x.code rows) x)) [
    | inl replay' ↦ inr (other, rw replay' c)
    | inr other' ↦ inr (other, rw other' (inr c))
  ]
]

-- The row is the link's: its target and the time of its creation.
abbrev pub Owns : PendingLink → LinkRow → Type 0
Owns l row = (row.target_url ≡ l.target_url) × (row.created_ms ≡ l.created_at)

-- Every link of the list is reported as persisted with its row, or as a conflict with another's.
abbrev pub Settled : Inserted → Table → PendingLink → Type 0
Settled r table l =
    (row : LinkRow) × (get l.code table ≡ some row)
    × ((Owns l row × In l.code r.persisted) ⊎ ((¬ Owns l row) × In l r.conflicts))

both : (x y : Bool) → (x && y) ≡ true → (x ≡ true) × (y ≡ true)
both true y h = (refl, h)
both false y h = cc

false-ne-true : false ≢ true
false-ne-true e = cc

is_replay-Owns :
    (row : LinkRow) (l : PendingLink)
    → ((is_replay (some row) l ≡ true) → Owns l row)
      × ((is_replay (some row) l ≡ false) → ¬ Owns l row)
unfolding is_replay
is_replay-Owns row l = (
  λ h.
      let (target, time) =
        both (text_eq row.target_url l.target_url) (row.created_ms == l.created_at) h in
      (
        (text_eq_iff row.target_url l.target_url).0 target,
        (==_iff row.created_ms l.created_at).0 time,
      ),
  λ h owns. false-ne-true (
      sym h
      ∙ rw
          (
            (text_eq_iff row.target_url l.target_url).1 owns.0,
            (==_iff row.created_ms l.created_at).1 owns.1,
          )
          refl),
)

-- Rows keep their target and the time of their creation.
abbrev pub KeepsRows : (Table → Table) → Type 0
KeepsRows between =
    (table : Table) (code : Text) (row : LinkRow)
    → get code table ≡ some row
    → (row' : LinkRow) × (get code (between table) ≡ some row')
      × (row'.target_url ≡ row.target_url)
      × (row'.created_ms ≡ row.created_ms)

-- When other sessions neither delete rows nor change their targets and times of creation between
-- the statements, every link of the batch, of several with one code the first, has a row with its
-- code in the table afterwards: either the row is the link's and the code is reported as persisted,
-- or the row is another link's and the link is reported as a conflict.
pub insert_pending_batch-Settled :
    (between : Table → Table) (links : List PendingLink) (table : Table) (l : PendingLink)
    → KeepsRows between
    → In l (first_of_each [] links)
    → let (table', r) = insert_pending_batch between links table in Settled r table' l
unfolding insert_pending_batch add_persisted
insert_pending_batch-Settled between links table l keeps i =
    let batch = first_of_each [] links in
    let table' = (insert_rows batch table).0 in
    let returned = (insert_rows batch table).1 in
    let rest = not_returned returned batch in
    let reported = sort_existing rest (between table') in
    elim (insert_rows_all batch table l (first_of_each-Distinct [] links).0 i) [
      | inl (known, found) ↦
          let (row, e, target, time) = keeps table' l.code (row_of l) found in
          (
            row,
            e,
            inl (
              (target, time),
              In-left l.code returned reported.persisted (In-has l.code returned known),
            ),
          )
      | inr (absent, (row, found)) ↦
          let (row', e, _, _) = keeps table' l.code row found in
          let at = λ (o : Option LinkRow). is_replay o l in
          elim (sort_existing-Reported rest (between table') l
            (In-not_returned returned l batch absent i)) [
              | inl (replay, p) ↦ (
                row',
                e,
                inl (
                  (is_replay-Owns row' l).0 (sym (ap at e) ∙ replay),
                  In-right l.code returned reported.persisted p,
                ),
              )
              | inr (other, c) ↦
                  (row', e, inr ((is_replay-Owns row' l).1 (sym (ap at e) ∙ other), c))
            ]
    ]
