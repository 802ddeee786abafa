-- ===== src/Clicks/Counts.antt =====
-- Sums of click counts, and what each loop of a flush does to them.
use wrap_link.Prelude.{
  ℕ, ◌+◌, ◌≡◌, refl, sym, inl, inr, true, List, [], ◌∷◌, Option, none, some, Text, text_eq,
  text_eq_iff, leb, if◌then◌else◌, In, AllDistinct, arith, Bool-cases,
}
use wrap_link.Prelude.Maps.{Map, has, get, set, keys, set-AllDistinct, get_absent}
use wrap_link.Clicks.{
  ClickBuffer, or_zero, count_of, add_pending, restore, retry, retry_found, retry_all,
}

-- The clicks of a batch.
abbrev pub total : Map ℕ → ℕ
total [] = 0
total ((code, count) ∷ m) = count + total m

-- The clicks of a batch's codes that the sink matched.
pub matched : Map ℕ → List Text → ℕ
matched [] unmatched = 0
matched ((code, count) ∷ m) unmatched =
    (if has code unmatched then 0 else count) + matched m unmatched

-- The clicks of a batch for the codes of a list.
pub sum_of : List Text → Map ℕ → ℕ
sum_of [] m = 0
sum_of (code ∷ codes) m = count_of code m + sum_of codes m

total-set_exchange : (k : Text) (v : ℕ) (m : Map ℕ) → total (set k v m) + count_of k m ≡ total m + v
unfolding set get
total-set_exchange k v [] = omega arith
total-set_exchange k v ((j, c) ∷ m) = ground (arith, total-set_exchange k v m)

pub total-set : (k : Text) (n : ℕ) (m : Map ℕ) → total (set k (count_of k m + n) m) ≡ total m + n
total-set k n m = omega (arith, total-set_exchange k (count_of k m + n) m)

has-In : (k : Text) (js : List Text) → has k js ≡ true → In k js
unfolding has
has-In k [] h = cc
has-In k (j ∷ js) h = elim (Bool-cases (text_eq j k)) [
  | inl same ↦ inl (sym ((text_eq_iff j k).0 same))
  | inr other ↦ inr (has-In k js (rw other at h))
]

-- A code that is not in the batch adds nothing; one that is adds its count if it is in the list.
sum_of-cons :
    (codes : List Text) (k : Text) (n : ℕ) (m : Map ℕ)
    → AllDistinct codes
    → get k m ≡ none
    → sum_of codes ((k, n) ∷ m) ≡ sum_of codes m + (if has k codes then n else 0)
unfolding sum_of get has
sum_of-cons [] k n m d absent = omega arith
sum_of-cons (c ∷ codes) k n m d absent = ground (
  arith,
  sum_of-cons codes k n m d.1 absent,
  text_eq_iff k c,
  text_eq_iff c k,
  has-In c codes,
  d.0,
)

sum_of-nil : (codes : List Text) → sum_of codes [] ≡ 0
unfolding sum_of get
sum_of-nil [] = refl
sum_of-nil (c ∷ codes) = omega (arith, sum_of-nil codes)

-- The unmatched and the matched clicks make up the batch.
pub sum_of-matched :
    (batch : Map ℕ) (codes : List Text)
    → AllDistinct (keys batch)
    → AllDistinct codes
    → sum_of codes batch + matched batch codes ≡ total batch
unfolding matched
sum_of-matched [] codes d e = omega (arith, sum_of-nil codes)
sum_of-matched ((k, n) ∷ m) codes d e =
    ground (arith, sum_of-matched m codes d.1 e, sum_of-cons codes k n m e (get_absent k m d.0))

pub record Sound (b : ClickBuffer) : Type 0 where
  pub counted : b.pending_total ≡ total b.pending
  pub distinct : AllDistinct (keys b.pending)

pub add_pending-Sound :
    (code : Text) (count : ℕ) (b : ClickBuffer)
    → Sound b
    → Sound (add_pending code count b)
      × (total (add_pending code count b).pending ≡ total b.pending + count)
unfolding add_pending
add_pending-Sound code count b s = (
  record {
    counted = omega (arith, total-set code count b.pending, s.counted);
    distinct = set-AllDistinct code _ b.pending s.distinct;
  },
  total-set code count b.pending,
)

pub restore-Sound :
    (batch : Map ℕ) (b : ClickBuffer)
    → Sound b
    → Sound (restore batch b)
      × (total (restore batch b).pending ≡ total b.pending + total batch)
      × ((restore batch b).dropped ≡ b.dropped)
unfolding restore add_pending
restore-Sound [] b s = (s, omega arith, refl)
restore-Sound ((code, count) ∷ m) b s =
    let (t, e) = add_pending-Sound code count b s in
    let (u, f, g) = restore-Sound m (add_pending code count b) t in (u, omega arith, g)

retry-Sound :
    (code : Text) (count : ℕ) (b : ClickBuffer)
    → Sound b
    → Sound (retry code count b)
      × (total (retry code count b).pending + (retry code count b).dropped
          ≡ total b.pending + b.dropped + count)
unfolding retry add_pending
retry-Sound code count b s =
    elim (Bool-cases (leb b.max_unmatched_attempts (count_of code b.unmatched_attempts + 1))) [
      | inl given_up ↦
          rw (given_up, retry) (record { counted = s.counted; distinct = s.distinct }, omega arith)
      | inr again ↦
          let c : ClickBuffer = record b {
            unmatched_attempts =
                set code (count_of code b.unmatched_attempts + 1) b.unmatched_attempts;
          } in
          let (t, e) =
            add_pending-Sound code count c
              (record { counted = s.counted; distinct = s.distinct }) in
          rw (again, retry) (t, omega (arith, e))
    ]

retry_found-Sound :
    (found : Option ℕ) (code : Text) (b : ClickBuffer)
    → Sound b
    → Sound (retry_found found code b)
      × (total (retry_found found code b).pending + (retry_found found code b).dropped
          ≡ total b.pending + b.dropped + or_zero found)
unfolding retry_found
retry_found-Sound none code b s = (s, omega arith)
retry_found-Sound (some count) code b s = retry-Sound code count b s

pub retry_all-Sound :
    (batch : Map ℕ) (codes : List Text) (b : ClickBuffer)
    → Sound b
    → Sound (retry_all batch codes b)
      × (total (retry_all batch codes b).pending + (retry_all batch codes b).dropped
          ≡ total b.pending + b.dropped + sum_of codes batch)
unfolding retry_all sum_of
retry_all-Sound batch [] b s = (s, omega arith)
retry_all-Sound batch (code ∷ codes) b s =
    let (t, e) = retry_found-Sound (get code batch) code b s in
    let (u, f) = retry_all-Sound batch codes (retry_found (get code batch) code b) t in
    (u, omega arith)
