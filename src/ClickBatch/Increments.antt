-- ===== src/ClickBatch/Increments.antt =====
-- Every click of a batch is counted once, or reported as unmatched.
use wrap_link.Prelude.{
  ℕ, ◌≡◌, refl, sym, ap, subst, ◌∙◌, inl, inr, Bool, true, false, not, ◌&&◌, ◌||◌, List, [], ◌∷◌,
  ◌++◌, Option, none, some, Text, text_eq, text_eq_iff, all, In, AllDistinct, Result, ok, ◌>>=◌,
  guard, arith, Bool-cases,
}
use wrap_link.Prelude.Maps.{Map, has, get, keys, get-set, get_absent}
use wrap_link.Clicks.{count_of, or_zero}
use wrap_link.PendingBatch.{LinkRow}
use wrap_link.ClickBatch.{
  add_clicks, update_row, update_rows, is_count, unmatched, record_click_batch,
}

abbrev pub is_some : Option LinkRow → Bool
is_some none = false
is_some (some row) = true

abbrev pub with_clicks : ℕ → Option LinkRow → Option LinkRow
with_clicks count none = none
with_clicks count (some row) = some (add_clicks count row)

with_clicks-zero : (o : Option LinkRow) → with_clicks 0 o ≡ o
with_clicks-zero none = refl
with_clicks-zero (some row) = ap (λ (n : ℕ). some (record row { clicks = n })) (omega arith)

has-append : (c : Text) (xs ys : List Text) → has c (xs ++ ys) ≡ (has c xs || has c ys)
unfolding has
has-append c [] ys = refl
has-append c (x ∷ xs) ys = ground (arith, has-append c xs ys)

-- The row of another code, and that of the code.
update_row_other :
    (o : Option LinkRow) (code k : Text) (count : ℕ) (table : Map LinkRow)
    → text_eq code k ≡ false
    → (get k (update_row o code count table).0 ≡ get k table)
      × (has k (update_row o code count table).1 ≡ false)
unfolding update_row has
update_row_other none code k count table other = (refl, refl)
update_row_other (some row) code k count table other =
    (get-set code k (add_clicks count row) table ∙ rw other refl, rw other refl)

update_row_same :
    (o : Option LinkRow) (code k : Text) (count : ℕ) (table : Map LinkRow)
    → text_eq code k ≡ true
    → get k table ≡ o
    → (get k (update_row o code count table).0 ≡ with_clicks count o)
      × (has k (update_row o code count table).1 ≡ is_some o)
unfolding update_row has
update_row_same none code k count table same e = (e, refl)
update_row_same (some row) code k count table same e =
    (get-set code k (add_clicks count row) table ∙ rw same refl, rw same refl)

has-In : (c : Text) (xs : List Text) → ¬ In c xs → has c xs ≡ false
unfolding has
has-In c [] n = refl
has-In c (x ∷ xs) n = elim (Bool-cases (text_eq x c)) [
  | inl same ↦ absurd (n (inl (sym ((text_eq_iff x c).0 same))))
  | inr other ↦ rw other (has-In c xs (λ i. n (inr i)))
]

or_false : (x : Bool) → (x || false) ≡ x
or_false true = refl
or_false false = refl

-- The rows after the statement, and the codes that it returns.
abbrev Updated : Map ℕ → Map LinkRow → Text → Type 0
Updated clicks table k =
    (get k (update_rows clicks table).0 ≡ with_clicks (count_of k clicks) (get k table))
    × (has k (update_rows clicks table).1 ≡ (has k (keys clicks) && is_some (get k table)))

update_rows-Updated :
    (clicks : Map ℕ) (table : Map LinkRow) (k : Text)
    → AllDistinct (keys clicks)
    → Updated clicks table k
unfolding update_rows has get
update_rows-Updated [] table k d = (sym (with_clicks-zero (get k table)), refl)
update_rows-Updated ((code, count) ∷ clicks) table k d =
    let step = update_row (get code table) code count table in
    let (row, returned) = update_rows-Updated clicks step.0 k d.1 in
    let joined = has-append k step.1 (update_rows clicks step.0).1 in
    elim (Bool-cases (text_eq code k)) [
      | inr other ↦
          let (kept, silent) = update_row_other (get code table) code k count table other in
          (
            rw other (row ∙ ap (with_clicks (count_of k clicks)) kept),
            joined ∙ rw (silent, returned, kept, other) refl,
          )
      | inl same ↦
          let code_k = (text_eq_iff code k).0 same in
          let new : ¬ In k (keys clicks) =
            λ i. d.0 (subst (λ c. In c (keys clicks)) (sym code_k) i) in
          let e : get k table ≡ get code table = ap (λ c. get c table) (sym code_k) in
          let (put, known) = update_row_same (get code table) code k count table same e in
          let zero = ap or_zero (get_absent k clicks new) in
          (
            rw same (
                row
                ∙ ap (λ n. with_clicks n (get k step.0)) zero
                ∙ with_clicks-zero (get k step.0)
                ∙ put
                ∙ ap (with_clicks count) (sym e)),
            joined
                ∙ rw (known, returned, has-In k (keys clicks) new)
                    (or_false (is_some (get code table)))
                ∙ ap is_some (sym e)
                ∙ rw same refl,
          )
    ]

has-unmatched :
    (k : Text) (matched codes : List Text)
    → has k (unmatched matched codes) ≡ (has k codes && not (has k matched))
unfolding unmatched has
has-unmatched k matched [] = refl
has-unmatched k matched (c ∷ codes) = elim (Bool-cases (text_eq c k)) [
  | inl same ↦
      let e = ap (λ x. has x matched) ((text_eq_iff c k).0 same) in
      elim (Bool-cases (has k matched)) [
        | inl known ↦
            rw (e ∙ known, has-unmatched k matched codes, known, same) (and_false (has k codes))
        | inr new ↦ rw (e ∙ new, same, new) refl
      ]
  | inr other ↦ elim (Bool-cases (has c matched)) [
    | inl known ↦ rw (known, other) (has-unmatched k matched codes)
    | inr new ↦ rw (new, other) (has-unmatched k matched codes)
  ]
]
  where
    and_false : (x : Bool) → (x && false) ≡ false
    and_false true = refl
    and_false false = refl

not_both : (x y : Bool) → (x && not (x && y)) ≡ (x && not y)
not_both true y = refl
not_both false y = refl

-- When `recordClickBatch` returns, on a batch whose codes are distinct, the row of every code has as
-- many clicks more as the batch has for the code, no code has a row that had none, and the returned
-- set has exactly the codes of the batch that have no row.
pub record_click_batch_lem :
    (clicks : Map ℕ) (table table' : Map LinkRow) (codes : List Text) (k : Text)
    → AllDistinct (keys clicks)
    → record_click_batch clicks table ≡ ok (table', codes)
    → (get k table' ≡ with_clicks (count_of k clicks) (get k table))
      × (has k codes ≡ (has k (keys clicks) && not (is_some (get k table))))
unfolding record_click_batch
record_click_batch_lem clicks table table' codes k d h =
    let result = (update_rows clicks table).0 in
    let matched = (update_rows clicks table).1 in
    let (rows, returned) = update_rows-Updated clicks table k d in
    let (same, same') =
      guarded (all is_count clicks) result table' (unmatched matched (keys clicks)) codes h in
    (
      ap (get k) (sym same) ∙ rows,
      ap (has k) (sym same')
          ∙ has-unmatched k matched (keys clicks)
          ∙ ap (λ b. has k (keys clicks) && not b) returned
          ∙ not_both (has k (keys clicks)) (is_some (get k table)),
    )
  where
    guarded :
        (test : Bool) (t t' : Map LinkRow) (u u' : List Text)
        → ◌≡◌ {A = Result (Map LinkRow × List Text)}
            (guard test "click count must be a positive integer" >>= λ _. ok (t, u))
            (ok (t', u'))
        → (t ≡ t') × (u ≡ u')
    guarded true t t' u u' h = (cc, cc)
    guarded false t t' u u' h = cc
