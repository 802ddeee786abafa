-- ===== src/SyncWorker/History.antt =====
-- All runs of all workers on one shard, with what the write-behind store pushes and the lock's
-- expiries, and what became of every entry.
use wrap_link.Prelude.{
  ℕ, ◌≡◌, refl, sym, ap, subst, ◌∙◌, inl, inr, List, [], ◌∷◌, ◌++◌, Option, none, some, Text, ◌==◌,
  ==_iff, if◌then◌else◌, All, arith, Bool-cases,
}
use wrap_link.Prelude.Maps.{Map}
use wrap_link.PendingLinks.{Field, Json}
use wrap_link.SyncWorker.{Shard, SyncOptions}
use wrap_link.SyncWorker.Effects.{Prefix, Prefix-append, In-left, In-right, All-map}
use wrap_link.SyncWorker.Run.{
  Phase, Running, idle, Event, Step, step, not_started, releasing, finished, wants, holding,
  inserting, completing,
}
use wrap_link.SyncWorker.Lossless.{Covered, Covered-more, Ready, Good, step-Good, none-ne-some}

pub data Happening : Type 0 where
  pushes : Text → Happening
  expires : Happening
  steps : ℕ → Event → Happening

-- The shard, the runs by their tokens, and the history: the entries that were pushed, those that
-- left the queue, those whose links the sink acknowledged, and the letters that were buried.
pub record World : Type 0 where
  pub shard : Shard
  pub runs : ℕ → Running
  pub pushed : List Text
  pub removed : List Text
  pub stored : List Text
  pub buried : List Text

abbrev pub fresh_world : World
fresh_world = record {
  shard = record { queue = []; lock = none; dead_letters = []; cache = [] };
  runs = λ t. idle;
  pushed = [];
  removed = [];
  stored = [];
  buried = [];
}

abbrev after_step : World → ℕ → Step → World
after_step w t d = record {
  shard = d.shard;
  runs = λ u. if u == t then d.running else w.runs u;
  pushed = w.pushed;
  removed = w.removed ++ d.trimmed;
  stored = d.stored ++ w.stored;
  buried = d.buried ++ w.buried;
}

module _ (json_parse : Text → Option Json) (json_stringify : Map Field → Text) (to_iso : ℕ → Text)
    (parse_date : Text → Option ℕ) (o : SyncOptions) where
  unfoldable pub happen : World → Happening → World
  happen w (pushes entry) = record w {
    shard = record w.shard { queue = w.shard.queue ++ entry ∷ [] };
    pushed = w.pushed ++ entry ∷ [];
  }
  happen w expires = record w { shard = record w.shard { lock = none } }
  happen w (steps t e) =
      after_step w t
        (step json_parse json_stringify to_iso parse_date o t e (w.runs t).phase w.shard (w.runs t))

  unfoldable pub run : World → List Happening → World
  unfolding happen
  run w [] = w
  run w (h ∷ hs) = run (happen w h) hs

  abbrev pub Settled : World → Text → Type 0
  Settled w entry = Covered json_parse json_stringify to_iso parse_date o w.stored w.buried entry

  -- The queue is what was pushed less what left it, and what left it is settled.
  pub record Lossless (w : World) : Type 0 where
    pub line : w.removed ++ w.shard.queue ≡ w.pushed
    pub settled : All (Settled w) w.removed

  abbrev RunReady : List Text → ℕ → Shard → Phase → Type 0
  RunReady = Ready json_parse json_stringify to_iso parse_date o

  record Inv (w : World) : Type 0 where
    lossless : Lossless w
    runs_ready : (t : ℕ) → RunReady w.stored t w.shard (w.runs t).phase

  -- A run stays ready when the head of the queue stays as long as the run has the lock, and more is
  -- stored.
  still-Ready :
      (stored more : List Text) (t : ℕ) (s s' : Shard) (p : Phase)
      → (s'.lock ≡ some t
          → (s.lock ≡ some t) × ((xs : List Text) → Prefix xs s.queue → Prefix xs s'.queue))
      → RunReady stored t s p
      → RunReady (more ++ stored) t s' p
  still-Ready stored more t s s' (inserting n b) k (covers, head) =
      (covers, λ mine. let (before, keep) = k mine in keep b.raw (head before))
  still-Ready stored more t s s' (completing n b i) k (covers, head) = (
    All-map
        (λ x c.
          Covered-more json_parse json_stringify to_iso parse_date o stored (more ++ stored)
            b.letters b.letters x (In-right x more stored) (λ y h. h) c)
        b.raw covers,
    λ mine. let (before, keep) = k mine in keep b.raw (head before),
  )
  still-Ready stored more t s s' (wants n) k h = tt
  still-Ready stored more t s s' (holding n) k h = tt
  still-Ready stored more t s s' not_started k h = tt
  still-Ready stored more t s s' releasing k h = tt
  still-Ready stored more t s s' finished k h = tt

  append_assoc : (xs ys zs : List Text) → (xs ++ ys) ++ zs ≡ xs ++ (ys ++ zs)
  append_assoc [] ys zs = refl
  append_assoc (x ∷ xs) ys zs = ap (◌∷◌ x) (append_assoc xs ys zs)

  All-append : (P : Text → Type 0) (xs ys : List Text) → All P xs → All P ys → All P (xs ++ ys)
  All-append P [] ys a b = b
  All-append P (x ∷ xs) ys a b = (a.0, All-append P xs ys a.1 b)

  after_step-Inv :
      (w : World) (t : ℕ) (d : Step)
      → Inv w
      → Good json_parse json_stringify to_iso parse_date o t w.stored w.shard d
      → Inv (after_step w t d)
  after_step-Inv w t d v g = record {
    lossless = record {
      line =
          append_assoc w.removed d.trimmed d.shard.queue
          ∙ ap (λ q. w.removed ++ q) g.line
          ∙ v.lossless.line;
      settled =
          All-append _ w.removed d.trimmed
            (All-map
              (λ x c.
                Covered-more json_parse json_stringify to_iso parse_date o w.stored
                  (d.stored ++ w.stored) w.buried (d.buried ++ w.buried) x
                  (In-right x d.stored w.stored) (λ y h. In-right y d.buried w.buried h) c)
              w.removed v.lossless.settled)
            (All-map
              (λ x c.
                Covered-more json_parse json_stringify to_iso parse_date o w.stored
                  (d.stored ++ w.stored) d.buried (d.buried ++ w.buried) x
                  (In-right x d.stored w.stored) (λ y h. In-left y d.buried w.buried h) c)
              d.trimmed g.covered);
    };
    runs_ready = λ u. elim (Bool-cases (u == t)) [
      | inl same ↦ rw same (
          subst (λ u'. RunReady (d.stored ++ w.stored) u' d.shard d.running.phase)
            (sym ((==_iff u t).0 same)) g.own)
      | inr other ↦ rw other (
          still-Ready w.stored d.stored u w.shard d.shard (w.runs u).phase
            (λ k.
              let (before, unchanged) = g.others u (λ e. ground arith) k in
              (before, λ xs p. subst (Prefix xs) (sym unchanged) p))
            (v.runs_ready u))
    ];
  }

  happen-Inv : (w : World) (h : Happening) → Inv w → Inv (happen w h)
  unfolding happen
  happen-Inv w (pushes entry) v = record {
    lossless = record {
      line =
          sym (append_assoc w.removed w.shard.queue (entry ∷ []))
          ∙ ap (λ q. q ++ entry ∷ []) v.lossless.line;
      settled = v.lossless.settled;
    };
    runs_ready = λ t.
        still-Ready w.stored [] t w.shard (record w.shard { queue = w.shard.queue ++ entry ∷ [] })
          (w.runs t).phase (λ k. (k, λ xs p. Prefix-append xs w.shard.queue (entry ∷ []) p))
          (v.runs_ready t);
  }
  happen-Inv w expires v = record {
    lossless = record { line = v.lossless.line; settled = v.lossless.settled };
    runs_ready = λ t.
        still-Ready w.stored [] t w.shard (record w.shard { lock = none }) (w.runs t).phase
          (λ k. absurd (none-ne-some k)) (v.runs_ready t);
  }
  happen-Inv w (steps t e) v = after_step-Inv w t _ v (
      step-Good json_parse json_stringify to_iso parse_date o t w.stored e (w.runs t).phase w.shard
        (w.runs t) (v.runs_ready t))

  start-Inv : Inv fresh_world
  start-Inv = record { lossless = record { line = refl; settled = tt }; runs_ready = λ t. tt }

  run-Inv : (hs : List Happening) (w : World) → Inv w → Inv (run w hs)
  unfolding run
  run-Inv [] w v = v
  run-Inv (h ∷ hs) w v = run-Inv hs (happen w h) (happen-Inv w h v)

  -- Whatever is pushed and whichever runs of the workers take whichever steps, with calls that fail,
  -- replies that are lost and locks that expire at any moment: the queue is the pushed entries in
  -- their order less some from the front, and each of these either had its link acknowledged by the
  -- sink before it left the queue or was put in a dead letter as invalid.
  pub run-Lossless : (hs : List Happening) → Lossless (run fresh_world hs)
  run-Lossless hs = (run-Inv hs fresh_world start-Inv).lossless
