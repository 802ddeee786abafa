-- ===== src/WriteBehind/Limits.antt =====
-- The limit of a shard's queue, and that creation keeps it.
use wrap_link.Prelude.{
  ℕ, ◌+◌, ◌*◌, ◌/◌, ◌<◌, ◌≤◌, ◌≡◌, refl, inl, inr, Bool, true, false, List, [], ◌∷◌, Text, length,
  length-append, ok, JsNumber, is_positive, is_positive_bounds, nat_value, max, ◌==◌, arith,
  Bool-cases,
}
use wrap_link.Prelude.Maps.{Map, get}
use wrap_link.Keys.{link_key_shards, shard_of}
use wrap_link.Links.{LinkStore, CreateLinkInput, CodeSource, custom, generated}
use wrap_link.PendingLinks.{Field}
use wrap_link.SyncWorker.{Shard}
use wrap_link.WriteBehind.{
  Enqueued, accepted, exists, full, enqueue_link, shard_limit, Call, replies, rejects, loses_reply,
  World, delegate, is_pending, create_custom, arguments_of, answer_outcome, fall_back, enqueued,
  create_generated, create_from, create,
}
use wrap_link.WriteBehind.Creation.{enqueue_cases}

-- The constructor accepts every positive safe integer. The limit of a shard is one at least; all
-- shards together have room for as many links as configured, and for up to 1,023 more.
pub shard_limit_bounds :
    (n : JsNumber)
    → is_positive n ≡ true
    → (limit : ℕ) × (shard_limit n ≡ ok limit)
      × (1 ≤ limit)
      × (nat_value n ≤ link_key_shards * limit)
      × (link_key_shards * limit < nat_value n + 1024)
unfolding shard_limit
shard_limit_bounds n p =
    let (positive, _) = is_positive_bounds n p in
    (max 1 ((nat_value n + 1023) / 1024), rw p refl, omega arith, omega arith, omega arith)

-- The script leaves a queue that is within the limit within it.
enqueue_bounded :
    (synchronous : LinkStore) (max_pending : ℕ) (json_stringify : Map Field → Text)
    (to_iso : ℕ → Text) (input : CreateLinkInput) (now : ℕ) (s : Shard)
    → length s.queue ≤ max_pending
    → length
        (enqueue_link
          (arguments_of synchronous max_pending json_stringify to_iso input now)
          s).0.queue
      ≤ max_pending
unfolding arguments_of
enqueue_bounded synchronous max_pending json_stringify to_iso input now s h =
    let a = arguments_of synchronous max_pending json_stringify to_iso input now in
    elim (enqueue_cases a s) [
      | inl (e, found, ran) ↦ rw ran h
      | inr (inl (absent, no_room, ran)) ↦ rw ran h
      | inr (inr (absent, room, (s', ran, queue, found))) ↦
          rw (ran, queue, length-append s.queue (a.entry ∷ [])) (omega arith)
    ]

-- A call of `create`: the client's state, what comes of its call, the input and the time.
pub record Request : Type 0 where
  pub is_ready : Bool
  pub call : Call
  pub input : CreateLinkInput
  pub now : ℕ

module _ (synchronous : LinkStore) (max_pending : ℕ) (json_stringify : Map Field → Text)
    (to_iso : ℕ → Text) where
  abbrev pub Bounded : World synchronous → Type 0
  Bounded w = (n : ℕ) → length (w.redis n).queue ≤ max_pending

  pub run : World synchronous → List Request → World synchronous
  run w [] = w
  run w (r ∷ rs) =
      run (create synchronous max_pending json_stringify to_iso r.is_ready r.call r.input r.now w).0
        rs

  enqueued-Bounded :
      (input : CreateLinkInput) (now : ℕ) (w : World synchronous)
      → Bounded w
      → Bounded (enqueued synchronous max_pending json_stringify to_iso input now w).0
  unfolding enqueued
  enqueued-Bounded input now w b n = elim (Bool-cases (n == shard_of input.code)) [
    | inl same ↦ rw same (
        enqueue_bounded synchronous max_pending json_stringify to_iso input now
          (w.redis (shard_of input.code)) (b (shard_of input.code)))
    | inr other ↦ rw other (b n)
  ]

  answer-Bounded :
      (o : Enqueued) (input : CreateLinkInput) (now : ℕ) (w : World synchronous)
      → Bounded w
      → Bounded (answer_outcome synchronous max_pending json_stringify to_iso o input now w).0
  unfolding answer_outcome delegate
  answer-Bounded accepted input now w b = b
  answer-Bounded exists input now w b = b
  answer-Bounded full input now w b = b

  generated-Bounded :
      (is_ready : Bool) (call : Call) (input : CreateLinkInput) (now : ℕ) (w : World synchronous)
      → Bounded w
      → Bounded
          (create_generated synchronous max_pending json_stringify to_iso is_ready call input now
            w).0
  unfolding create_generated fall_back delegate
  generated-Bounded false call input now w b = b
  generated-Bounded true rejects input now w b = b
  generated-Bounded true loses_reply input now w b = enqueued-Bounded input now w b
  generated-Bounded true replies input now w b =
      answer-Bounded (enqueued synchronous max_pending json_stringify to_iso input now w).1 input
        now (enqueued synchronous max_pending json_stringify to_iso input now w).0
        (enqueued-Bounded input now w b)

  custom-Bounded :
      (is_ready : Bool) (call : Call) (input : CreateLinkInput) (w : World synchronous)
      → Bounded w
      → Bounded (create_custom synchronous is_ready call input w).0
  unfolding create_custom delegate
  custom-Bounded false call input w b = b
  custom-Bounded true rejects input w b = b
  custom-Bounded true loses_reply input w b = b
  custom-Bounded true replies input w b =
      elim (Bool-cases
        (is_pending synchronous (get input.code (w.redis (shard_of input.code)).cache))) [
          | inl pending ↦ rw pending b
          | inr free ↦ rw free b
        ]

  create-Bounded :
      (source : CodeSource) (is_ready : Bool) (call : Call) (input : CreateLinkInput) (now : ℕ)
      (w : World synchronous)
      → Bounded w
      → Bounded
          (create_from synchronous max_pending json_stringify to_iso source is_ready call input now
            w).0
  unfolding create_from
  create-Bounded custom is_ready call input now w b = custom-Bounded is_ready call input w b
  create-Bounded generated is_ready call input now w b =
      generated-Bounded is_ready call input now w b

  -- Whatever links are created, with Redis ready or not and its calls answered, rejected or answered
  -- in vain, no shard's queue becomes longer than the limit of a shard.
  pub run-Bounded : (w : World synchronous) (rs : List Request) → Bounded w → Bounded (run w rs)
  unfolding run create
  run-Bounded w [] b = b
  run-Bounded w (r ∷ rs) b =
      run-Bounded
        (create synchronous max_pending json_stringify to_iso r.is_ready r.call r.input r.now w).0
        rs (create-Bounded r.input.code_source r.is_ready r.call r.input r.now w b)
