-- ===== src/Clicks.antt =====
-- src/store/click-buffer.ts: `ClickBuffer`. The await of `performFlush` cuts a flush into its start
-- and its end; records, further flushes and timer ticks come in any order between them. The sink is
-- not modelled: its answer to a batch is an argument of the flush's end.
pub mod Counts
pub mod Conservation
pub mod Closing
mod Tests
use wrap_link.Prelude.{
  ℕ, zero, suc, ◌+◌, Bool, true, false, not, ◌&&◌, ◌||◌, List, [], ◌∷◌, Option, none, some, Text,
  Result, ok, throw, ◌>>=◌, ◌>>◌, guard, JsNumber, is_positive, nat_value, leb, if◌then◌else◌,
}
use wrap_link.Prelude.Maps.{Map, has, get, set, delete, keys}

-- The field `flushPromise`: none, that of a batch at the sink, or one whose flush has ended and
-- whose `finally` has not run.
pub data Flush : Type 0 where
  no_flush : Flush
  writing : Map ℕ → Flush
  written : Flush

pub record ClickBuffer : Type 0 where
  pub pending : Map ℕ
  pub pending_total : ℕ
  pub timer : Bool
  pub flush_promise : Flush
  pub closed : Bool
  pub unmatched_attempts : Map ℕ
  pub dropped : ℕ
  pub max_pending_clicks : ℕ
  pub max_unmatched_attempts : ℕ

unfoldable pub new_click_buffer : JsNumber → JsNumber → JsNumber → Result ClickBuffer
new_click_buffer flush_interval_ms max_pending_clicks max_unmatched_attempts = do
  guard (is_positive flush_interval_ms) "flush interval must be a positive integer"
  guard (is_positive max_pending_clicks) "maximum pending clicks must be a positive integer"
  guard (is_positive max_unmatched_attempts) "maximum unmatched attempts must be a positive integer"
  ok (record {
    pending = [];
    pending_total = 0;
    timer = false;
    flush_promise = no_flush;
    closed = false;
    unmatched_attempts = [];
    dropped = 0;
    max_pending_clicks = nat_value max_pending_clicks;
    max_unmatched_attempts = nat_value max_unmatched_attempts;
  })

-- `map.get(code) ?? 0`
abbrev pub or_zero : Option ℕ → ℕ
or_zero none = 0
or_zero (some n) = n

abbrev pub count_of : Text → Map ℕ → ℕ
count_of code m = or_zero (get code m)

unfoldable pub start : ClickBuffer → Result ClickBuffer
start b = if b.closed then throw "click buffer is closed" else ok (record b { timer = true })

-- `performFlush` up to its await.
unfoldable pub begin_flush : ClickBuffer → Map ℕ → ClickBuffer
begin_flush b [] = record b { flush_promise = written }
begin_flush b (entry ∷ entries) = record b {
  pending = [];
  pending_total = 0;
  flush_promise = writing (entry ∷ entries);
}

flush_unless : Flush → ClickBuffer → ClickBuffer
unfolding begin_flush
flush_unless no_flush b = begin_flush b b.pending
flush_unless _ b = b

-- `flush`: it joins a flush that is under way.
unfoldable pub flush : ClickBuffer → ClickBuffer
unfolding flush_unless
flush b = flush_unless b.flush_promise b

-- `this.pending.set(code, (this.pending.get(code) ?? 0) + count); this.pendingTotal += count`
unfoldable pub add_pending : Text → ℕ → ClickBuffer → ClickBuffer
add_pending code count b = record b {
  pending = set code (count_of code b.pending + count) b.pending;
  pending_total = b.pending_total + count;
}

is_empty : Text → Bool
is_empty [] = true
is_empty (c ∷ s) = false

flush_if_full : ClickBuffer → ClickBuffer
unfolding flush
flush_if_full b = if leb b.max_pending_clicks b.pending_total then flush b else b

unfoldable pub record_click : ClickBuffer → Text → Result ClickBuffer
unfolding is_empty flush_if_full add_pending
record_click b code = do
  guard (not b.closed) "click buffer is closed"
  guard (not (is_empty code)) "link code must not be empty"
  ok (flush_if_full (add_pending code 1 b))

-- The `catch` of `performFlush`: the batch goes back, entry by entry.
unfoldable pub restore : Map ℕ → ClickBuffer → ClickBuffer
restore [] b = b
restore ((code, count) ∷ entries) b = restore entries (add_pending code count b)

-- The loop that forgets the attempts of the codes that were matched.
unfoldable pub forget_matched : Map ℕ → List Text → Map ℕ → Map ℕ
forget_matched [] unmatched attempts = attempts
forget_matched ((code, _) ∷ entries) unmatched attempts =
    forget_matched entries unmatched (if has code unmatched then attempts else delete code attempts)

-- The body of the loop over the unmatched codes, for a code with `count` clicks in the batch.
unfoldable pub retry : Text → ℕ → ClickBuffer → ClickBuffer
unfolding add_pending
retry code count b =
    let attempts = count_of code b.unmatched_attempts + 1 in
    if leb b.max_unmatched_attempts attempts
    then record b {
      unmatched_attempts = delete code b.unmatched_attempts;
      dropped = b.dropped + count;
    }
    else add_pending code count
        (record b { unmatched_attempts = set code attempts b.unmatched_attempts })

retry_found : Option ℕ → Text → ClickBuffer → ClickBuffer
unfolding retry
retry_found none code b = b
retry_found (some count) code b = retry code count b

unfoldable pub retry_all : Map ℕ → List Text → ClickBuffer → ClickBuffer
unfolding retry_found
retry_all batch [] b = b
retry_all batch (code ∷ codes) b = retry_all batch codes (retry_found (get code batch) code b)

-- The sink's answer: it failed, or it wrote the batch and may have returned a set of codes.
pub data Answer : Type 0 where
  failed : Answer
  wrote : Option (List Text) → Answer

abbrev pub unmatched_of : Option (List Text) → List Text
unmatched_of none = []
unmatched_of (some codes) = codes

-- `performFlush` after its await.
unfoldable pub end_flush : Map ℕ → Answer → ClickBuffer → ClickBuffer
unfolding restore forget_matched retry_all
end_flush batch failed b = restore batch b
end_flush batch (wrote answer) b =
    let unmatched = unmatched_of answer in
    retry_all batch unmatched
      (record b { unmatched_attempts = forget_matched batch unmatched b.unmatched_attempts })

sink_answered : Flush → Answer → ClickBuffer → ClickBuffer
unfolding end_flush
sink_answered (writing batch) answer b = record (end_flush batch answer b) {
  flush_promise = written;
}
sink_answered _ answer b = b

-- The sink answers the batch that it holds.
unfoldable pub answer_flush : Answer → ClickBuffer → ClickBuffer
unfolding sink_answered
answer_flush answer b = sink_answered b.flush_promise answer b

clear_promise : Flush → Flush
clear_promise written = no_flush
clear_promise f = f

-- The `finally` of `flush`.
unfoldable pub clear_flush : ClickBuffer → ClickBuffer
unfolding clear_promise
clear_flush b = record b { flush_promise = clear_promise b.flush_promise }

-- `close` up to its first await.
unfoldable pub begin_close : ClickBuffer → ClickBuffer
begin_close b = record b { closed = true; timer = false }

-- One round of the loop of `close`: a flush that runs from its start to its `finally`.
unfoldable pub flush_round : Answer → ClickBuffer → ClickBuffer
unfolding flush answer_flush clear_flush
flush_round answer b = clear_flush (answer_flush answer (flush b))

-- What `close` has come to: it returned or rejected.
pub data Closed : Type 0 where
  returned rejected : ClickBuffer → Closed

after_round : Answer → ClickBuffer → Option Closed → Option Closed
after_round failed b rest = some (rejected b)
after_round (wrote codes) b rest = rest

has_pending : Map ℕ → Bool
has_pending [] = false
has_pending (entry ∷ entries) = true

-- The loop of `close` once no flush is under way: `sink round batch` is the sink's answer to the
-- batch of a round, and a flush that fails makes `close` reject. `none` means that the fuel ran out.
unfoldable pub close_rounds : (ℕ → Map ℕ → Answer) → ℕ → ℕ → ClickBuffer → Option Closed
unfolding after_round has_pending flush_round
close_rounds sink zero round b = none
close_rounds sink (suc fuel) round b =
    let answer = sink round b.pending in
    let b' = flush_round answer b in
    let rest = close_rounds sink fuel (round + 1) b' in
    if has_pending b.pending then after_round answer b' rest else some (returned b)
