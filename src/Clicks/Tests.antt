-- ===== src/Clicks/Tests.antt =====
-- The click buffer on concrete histories, and the theorems at inputs that meet their hypotheses.
use wrap_link.Prelude.{
  ◌≡◌, refl, false, List, [], ◌∷◌, some, codes, ok, integer, pos, is_positive, nat_value, arith,
}
use wrap_link.Clicks.{
  ClickBuffer, no_flush, new_click_buffer, failed, wrote, returned, close_rounds,
}
use wrap_link.Clicks.Conservation.{
  Ledger, Event, flushes, clears, closes, clicks, answers, ledger_run, Balanced,
  ledger_run-Balanced,
}
use wrap_link.Clicks.Closing.{writes, close_drains}

abbrev buffer : ClickBuffer
buffer = record {
  pending = [];
  pending_total = 0;
  timer = false;
  flush_promise = no_flush;
  closed = false;
  unmatched_attempts = [];
  dropped = 0;
  max_pending_clicks = 3;
  max_unmatched_attempts = 2;
}

buffer_new : new_click_buffer (integer (pos 1000)) (integer (pos 3)) (integer (pos 2)) ≡ ok buffer
unfolding new_click_buffer is_positive nat_value
buffer_new = refl

abbrev ledger : Ledger
ledger = record { buffer = buffer; accepted = 0; delivered = 0 }

abbrev history : List Event
history =
    clicks (codes "abcd")
    ∷ clicks (codes "efgh")
    ∷ clicks (codes "abcd")
    ∷ clicks (codes "efgh")
    ∷ answers (wrote (some (codes "abcd" ∷ [])))
    ∷ clears
    ∷ flushes
    ∷ answers failed
    ∷ closes
    ∷ []

ledger_run-Balanced_example : Balanced (ledger_run ledger history)
ledger_run-Balanced_example =
    ledger_run-Balanced ledger history (omega arith)
      (record { balance = refl; sound = record { counted = refl; distinct = tt }; sink = tt })

abbrev clicked : ClickBuffer
clicked = record buffer { pending = (codes "abcd", 1) ∷ []; pending_total = 1 }

close_drains_example :
    (c : ClickBuffer) × (close_rounds (writes (λ r m. some (codes "abcd" ∷ []))) 3 0 clicked
      ≡ some (returned c))
    × (c.pending ≡ [])
close_drains_example =
    close_drains (λ r m. some (codes "abcd" ∷ [])) (λ r m. ((λ h. h), tt)) clicked refl
      (omega arith)
