-- ===== src/SyncWorker/Run.antt =====
-- src/store/link-sync-worker.ts: the steps of `syncShard`.
use wrap_link.Prelude.{
  ℕ, ◌+◌, Bool, true, false, List, [], ◌∷◌, ◌++◌, Option, none, some, Text, codes, length, map, ltb,
  if◌then◌else◌,
}
use wrap_link.Prelude.Maps.{Map}
use wrap_link.Links.{PendingLink}
use wrap_link.PendingLinks.{Field, field_text, Json, serialize_pending_link, parse_pending_link}
use wrap_link.SyncWorker.{
  Shard, SyncCompletion, SyncOptions, SyncResult, empty_result, add_result, complete, release,
  acquire, peek,
}

-- `PendingLinkBatchResult`
pub record Inserted : Type 0 where
  pub persisted : List Text
  pub conflicts : List PendingLink

-- A batch: what was peeked, its valid links, the dead letters of the others, and their number.
pub record Batch : Type 0 where
  pub raw : List Text
  pub valid : List PendingLink
  pub letters : List Text
  pub poison : ℕ

-- What a run waits for; `n` is `batchIndex`.
pub data Phase : Type 0 where
  not_started releasing finished : Phase
  wants holding : ℕ → Phase
  inserting : ℕ → Batch → Phase
  completing : ℕ → Batch → Inserted → Phase

pub record Running : Type 0 where
  pub phase : Phase
  pub result : SyncResult

abbrev pub idle : Running
idle = record { phase = not_started; result = empty_result }

pub data Event : Type 0 where
  -- Redis answers the run's call.
  answers : ℕ → Event
  -- The sink answers: none if it failed.
  inserts : Option Inserted → ℕ → Event
  -- The call rejects without an effect, or after its effect.
  fails reply_lost : Event

-- What a step does to the shard and the run. The rest is the history: the entries that left the
-- queue, those whose links the sink acknowledged, and the letters that were buried.
pub record Step : Type 0 where
  pub shard : Shard
  pub running : Running
  pub trimmed : List Text
  pub stored : List Text
  pub buried : List Text

abbrev pub quiet : Shard → Running → Phase → Step
quiet s r p = record {
  shard = s;
  running = record r { phase = p };
  trimmed = [];
  stored = [];
  buried = [];
}

module _ (json_parse : Text → Option Json) (json_stringify : Map Field → Text) (to_iso : ℕ → Text)
    (parse_date : Text → Option ℕ) (o : SyncOptions) where
  unfoldable pub dead_letter : Text → Text → ℕ → Text
  dead_letter reason payload at = json_stringify (
      (codes "reason", field_text reason)
      ∷ (codes "payload", field_text payload)
      ∷ (codes "at", field_text (to_iso at))
      ∷ [])

  abbrev pub parse : Text → Option PendingLink
  parse entry = parse_pending_link parse_date json_parse entry

  unfoldable pub add_entry : Option PendingLink → Text → ℕ → Batch → Batch
  unfolding dead_letter
  add_entry (some link) entry at b = record b { raw = entry ∷ b.raw; valid = link ∷ b.valid }
  add_entry none entry at b = record b {
    raw = entry ∷ b.raw;
    poison = b.poison + 1;
    letters = dead_letter (codes "invalid") entry at ∷ b.letters;
  }

  -- The loop that sorts the peeked entries, at the time `at`.
  unfoldable pub sort_entries : ℕ → List Text → Batch
  unfolding add_entry
  sort_entries at [] = record { raw = []; valid = []; letters = []; poison = 0 }
  sort_entries at (entry ∷ entries) = add_entry (parse entry) entry at (sort_entries at entries)

  unfoldable pub peeked : ℕ → ℕ → List Text → Phase
  unfolding sort_entries
  peeked n at [] = releasing
  peeked n at (entry ∷ entries) = inserting n (sort_entries at (entry ∷ entries))

  -- The loop test once the lock is held for the first batch.
  unfoldable pub acquired : ℕ → Bool → Phase
  acquired n false = finished
  acquired n true = if ltb n o.max_batches_per_shard then holding n else releasing

  unfoldable pub keep_valid : Option PendingLink → Text → List Text → List Text
  keep_valid none entry entries = entries
  keep_valid (some link) entry entries = entry ∷ entries

  -- The entries of a batch that have a link.
  unfoldable pub valid_entries : List Text → List Text
  unfolding keep_valid
  valid_entries [] = []
  valid_entries (entry ∷ entries) = keep_valid (parse entry) entry (valid_entries entries)

  unfoldable pub conflict_letters : ℕ → List PendingLink → List Text
  unfolding dead_letter
  conflict_letters at links =
      map
        (λ link.
          dead_letter (codes "conflict") (serialize_pending_link to_iso json_stringify link) at)
        links

  unfoldable pub stored_batch : ℕ → Batch → Inserted → ℕ → Shard → Running → Step
  unfolding conflict_letters valid_entries
  stored_batch n b i at s r =
      record (quiet s r
        (completing n (record b { letters = b.letters ++ conflict_letters at i.conflicts }) i)) {
          stored = valid_entries b.raw;
        }

  -- `valid.length > 0 ? await insertPendingBatch(valid) : { persisted: [], conflicts: [] }`, and
  -- the letters of the conflicts.
  unfoldable pub insert :
      ℕ → Batch → List PendingLink → Option Inserted → ℕ → Shard → Running → Step
  unfolding stored_batch
  insert n b [] answer at s r = stored_batch n b (record { persisted = []; conflicts = [] }) at s r
  insert n b (link ∷ links) none at s r = quiet s r releasing
  insert n b (link ∷ links) (some i) at s r = stored_batch n b i at s r

  -- The completion that the run asks for.
  unfoldable pub completion_of : Batch → Inserted → SyncCompletion
  completion_of b i = record {
    consumed = length b.raw;
    persisted = i.persisted;
    conflicts = map (λ link. link.code) i.conflicts;
    dead_letters = b.letters;
    cache_ttl_seconds = o.cache_ttl_seconds;
  }

  -- The end of the loop's body, and its test.
  unfoldable pub next_batch : ℕ → Batch → Phase
  next_batch n b =
      if ltb (length b.raw) o.batch_size
      then finished
      else if ltb (n + 1) o.max_batches_per_shard
      then wants (n + 1)
      else finished

  counted : Batch → Inserted → SyncResult → SyncResult
  unfolding add_result
  counted b i result =
      add_result result
        (record { synced = length i.persisted; conflicts = length i.conflicts; poison = b.poison })

  -- After `complete`: the phase and the result, if the lock was still the run's.
  unfoldable pub completed : ℕ → ℕ → Batch → Inserted → Shard × Bool → Running → Step
  unfolding next_batch counted
  completed token n b i (s, false) r = quiet s r finished
  completed token n b i (s, true) r = record {
    shard = s;
    running = record { phase = next_batch n b; result = counted b i r.result };
    trimmed = b.raw;
    stored = [];
    buried = b.letters;
  }

  -- `syncShard` goes on only if the queue has entries.
  unfoldable pub measured : List Text → Phase
  measured [] = finished
  measured (entry ∷ entries) = wants 0

  -- One step of the run with the lock's token.
  unfoldable pub step : ℕ → Event → Phase → Shard → Running → Step
  unfolding measured acquired peeked completed completion_of insert
  step token (answers at) not_started s r = quiet s r (measured s.queue)
  step token (answers at) (wants n) s r =
      let (s', free) = acquire token s in quiet s' r (acquired n free)
  step token (answers at) (holding n) s r = quiet s r (peeked n at (peek o.batch_size s))
  step token (answers at) (completing n b i) s r =
      completed token n b i (complete token (completion_of b i) s) r
  step token (answers at) releasing s r = quiet (release token s) r finished
  step token (inserts answer at) (inserting n b) s r = insert n b b.valid answer at s r
  step token fails not_started s r = quiet s r finished
  step token fails (wants n) s r = quiet s r finished
  step token fails (holding n) s r = quiet s r releasing
  step token fails (completing n b i) s r = quiet s r releasing
  step token fails releasing s r = quiet s r finished
  step token reply_lost (wants n) s r = quiet (acquire token s).0 r finished
  step token reply_lost (completing n b i) s r =
      let done = completed token n b i (complete token (completion_of b i) s) r in
      record done { running = record r { phase = releasing } }
  step token reply_lost releasing s r = quiet (release token s) r finished
  step token e p s r = quiet s r p
