-- ===== src/SyncWorker/Lanes.antt =====
-- src/store/link-sync-worker.ts: `mapShards`, by which `processShards` and `backlog` visit the shards:
-- a number of lanes that take the next shard whenever their task has settled, in any order. A task that
-- rejects ends its lane, and `mapShards` rejects; the other lanes go on.
pub mod Visits
mod Tests
use wrap_link.Prelude.{
  ℕ, zero, suc, ◌+◌, min, Bool, true, false, List, [], ◌∷◌, ◌++◌, Option, none, some, any, ltb,
  ◌==◌, if◌then◌else◌,
}

remove : ℕ → List ℕ → List ℕ
remove i [] = []
remove i (j ∷ js) = let rest = remove i js in if j == i then js else j ∷ rest

module _ (T : Type 0) where
  -- `next`, the indices whose tasks the lanes await, the assignments to `results`, and the indices
  -- whose tasks rejected, the last first.
  pub record Lanes : Type 0 where
    pub next : ℕ
    pub awaited : List ℕ
    pub results : List (ℕ × T)
    pub failures : List ℕ

  -- The head of a lane's loop; `size` is the number of shards. A lane that ends awaits nothing.
  take_next : ℕ → Lanes → Lanes
  take_next size s =
      if ltb s.next size then record s { next = s.next + 1; awaited = s.next ∷ s.awaited } else s

  start_lanes : ℕ → ℕ → Lanes → Lanes
  unfolding take_next
  start_lanes zero size s = s
  start_lanes (suc lanes) size s = start_lanes lanes size (take_next size s)

  -- `Array.from` starts the lanes one after another, each up to its first await.
  unfoldable pub begin_visits : ℕ → ℕ → Lanes
  unfolding start_lanes
  begin_visits concurrency size =
      start_lanes (min concurrency size) size
        (record { next = 0; awaited = []; results = []; failures = [] })

  is_awaited : ℕ → Lanes → Bool
  is_awaited i s = any (λ j. j == i) s.awaited

  -- The rest of the lane's round: the task of the shard at `i` returned, or rejected.
  end_task : ℕ → ℕ → Option T → Lanes → Lanes
  unfolding take_next remove
  end_task size i (some value) s =
      take_next size (record s { awaited = remove i s.awaited; results = (i, value) ∷ s.results })
  end_task size i none s = record s { awaited = remove i s.awaited; failures = i ∷ s.failures }

  -- The task of the shard at `i` settles.
  unfoldable pub settle : ℕ → ℕ × Option T → Lanes → Lanes
  unfolding is_awaited end_task
  settle size (i, result) s = if is_awaited i s then end_task size i result s else s

  unfoldable pub run : ℕ → List (ℕ × Option T) → Lanes → Lanes
  unfolding settle
  run size [] s = s
  run size (event ∷ events) s = run size events (settle size event s)
