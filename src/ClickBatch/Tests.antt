-- ===== src/ClickBatch/Tests.antt =====
-- A batch with a known and an unknown code.
use wrap_link.Prelude.{
  ℕ, ◌≡◌, refl, ap, not, In, inl, inr, arith, ◌&&◌, [], ◌∷◌, none, Text, codes, text_eq, ok,
}
use wrap_link.Prelude.Maps.{Map, has, get, set, keys}
use wrap_link.Clicks.{count_of}
use wrap_link.PendingBatch.{LinkRow}
use wrap_link.ClickBatch.{record_click_batch}
use wrap_link.ClickBatch.Increments.{is_some, with_clicks, record_click_batch_lem}

abbrev row : ℕ → LinkRow
row clicks = record {
  target_url = codes "https://a.example/";
  created_ms = 5;
  expires_at = none;
  clicks = clicks;
}

abbrev clicks : Map ℕ
clicks = (codes "abcd", 3) ∷ (codes "gone", 2) ∷ []

abbrev before : Map LinkRow
before = (codes "abcd", row 4) ∷ []

abbrev after : Map LinkRow
after = (codes "abcd", row 7) ∷ []

batch_run : record_click_batch clicks before ≡ ok (after, codes "gone" ∷ [])
unfolding record_click_batch get set has text_eq
batch_run = refl

abbrev first_code : Text → ℕ
first_code [] = 0
first_code (c ∷ s) = c

one_each : ¬ In (codes "abcd") (codes "gone" ∷ [])
one_each (inl e) = omega (arith, ap first_code e)
one_each (inr i) = i

record_click_batch_lem_example :
    (get (codes "abcd") after
      ≡ with_clicks (count_of (codes "abcd") clicks) (get (codes "abcd") before))
    × (has (codes "abcd") (codes "gone" ∷ [])
        ≡ (has (codes "abcd") (keys clicks) && not (is_some (get (codes "abcd") before))))
record_click_batch_lem_example =
    record_click_batch_lem clicks before after (codes "gone" ∷ []) (codes "abcd")
      (one_each, ((λ i. i), tt)) batch_run
