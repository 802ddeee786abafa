-- ===== src/Metrics/Series.antt =====
-- The sum of a number over the series of a key, and how a change of a series changes it.
use wrap_link.Metrics.{
  HttpSeries, series_key, create_http_series, change_series, add_series, merge_series, merge_all,
}
use wrap_link.Prelude.{
  ℕ, ◌+◌, ◌≡◌, refl, sym, ap, ◌∙◌, inl, inr, Bool, true, false, not, ◌&&◌, List, [], ◌∷◌, Text,
  text_eq, text_eq_iff, any, Bool-cases, if◌then◌else◌, arith,
}

-- The sum over the series with the key.
unfoldable pub series_total : (HttpSeries → ℕ) → Text → List HttpSeries → ℕ
series_total f key [] = 0
series_total f key (s ∷ series) =
    (if text_eq (series_key s) key then f s else 0) + series_total f key series

-- A change that adds so much to a number of a series, and keeps the key.
pub record Adds (f : HttpSeries → ℕ) (key : Text) (change : HttpSeries → HttpSeries) (n : ℕ)
    : Type 0 where
  pub adds : (s : HttpSeries) → f (change s) ≡ f s + n
  pub keeps_key : (s : HttpSeries) → series_key (change s) ≡ series_key s

abbrev pub if_same : Text → Text → ℕ → ℕ
if_same key key' n = if text_eq key key' then n else 0

and-left : (a b : Bool) → (a && b) ≡ true → a ≡ true
and-left true b h = refl
and-left false b h = h

module _ (f : HttpSeries → ℕ) (key : Text) (fresh : HttpSeries) (change : HttpSeries → HttpSeries)
    (n : ℕ) (h : Adds f key change n) (fresh_key : series_key fresh ≡ key)
    (nothing : f fresh ≡ 0) where
  changed-total :
      (probe : Text) (s : HttpSeries)
      → series_key s ≡ key
      → (if text_eq (series_key (change s)) probe then f (change s) else 0)
        ≡ (if text_eq (series_key s) probe then f s else 0) + if_same key probe n
  changed-total probe s same =
      ap (λ k. if text_eq k probe then f (change s) else 0) (h.keeps_key s ∙ same)
      ∙ branches (text_eq key probe)
      ∙ ap (λ k. (if text_eq k probe then f s else 0) + if_same key probe n) (sym same)
    where
      branches :
          (b : Bool)
          → (if b then f (change s) else 0) ≡ (if b then f s else 0) + (if b then n else 0)
      branches true = h.adds s
      branches false = refl

  none_of : (b : Bool) → (if b then f fresh else 0) ≡ 0
  none_of true = nothing
  none_of false = refl

  same_key :
      (s : HttpSeries) (series : List HttpSeries)
      → (text_eq (series_key s) key && not (any (λ t. text_eq (series_key t) key) series)) ≡ true
      → series_key s ≡ key
  same_key s series here = (text_eq_iff (series_key s) key).0 (and-left _ _ here)

  pub series_total-change :
      (probe : Text) (series : List HttpSeries)
      → series_total f probe (change_series key fresh change series)
        ≡ series_total f probe series + if_same key probe n
  unfolding series_total change_series
  series_total-change probe [] =
      omega (arith, changed-total probe fresh fresh_key, none_of (text_eq (series_key fresh) probe))
  series_total-change probe (s ∷ series) =
      elim (Bool-cases
        (text_eq (series_key s) key && not (any (λ t. text_eq (series_key t) key) series))) [
          | inl here ↦ rw here (omega (arith, changed-total probe s (same_key s series here)))
          | inr there ↦ rw there (omega (arith, series_total-change probe series))
        ]

-- Adding the series of a snapshot adds their sum.
module _ (f : HttpSeries → ℕ)
    (additive : (source target : HttpSeries) → f (add_series source target) ≡ f target + f source)
    (nothing : (method route : Text) (status : ℕ)
      → f (create_http_series method route status) ≡ 0) where
  merge_series-Adds :
      (source : HttpSeries) → Adds f (series_key source) (add_series source) (f source)
  merge_series-Adds source = record { adds = additive source; keeps_key = λ s. refl }

  pub series_total-merge_all :
      (probe : Text) (sources target : List HttpSeries)
      → series_total f probe (merge_all sources target)
        ≡ series_total f probe target + series_total f probe sources
  unfolding merge_all series_total
  series_total-merge_all probe [] target = omega arith
  series_total-merge_all probe (source ∷ sources) target =
      let fresh = create_http_series source.method source.route source.status_code in
      omega (
        arith,
        series_total-merge_all probe sources (merge_series source target),
        series_total-change f (series_key source) fresh (add_series source) (f source)
            (merge_series-Adds source) refl (nothing source.method source.route source.status_code)
            probe target,
      )
