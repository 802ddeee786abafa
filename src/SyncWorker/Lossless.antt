-- ===== src/SyncWorker/Lossless.antt =====
-- No entry of a queue is lost, whatever happens to the workers, the lock and the calls.
use wrap_link.Prelude.{
  ℕ, ◌+◌, ◌≡◌, ◌≢◌, ◌⊎◌, refl, sym, ap, subst, ◌∙◌, inl, inr, Bool, true, false, List, [], ◌∷◌,
  ◌++◌, Option, none, some, Text, codes, length, drop, ltb, All, In, Bool-cases,
}
use wrap_link.Prelude.Maps.{Map}
use wrap_link.Links.{PendingLink}
use wrap_link.PendingLinks.{Field, Json}
use wrap_link.SyncWorker.{Shard, SyncOptions, complete, acquire, peek}
use wrap_link.SyncWorker.Effects.{
  Prefix, take-Prefix, drop-length-append, In-left, All-map, acquire-queue, acquire-lock,
  release-queue, release-lock, complete-cases,
}
use wrap_link.SyncWorker.Run.{
  Inserted, Batch, Phase, not_started, releasing, finished, wants, holding, inserting, completing,
  Running, Event, answers, inserts, fails, reply_lost, Step, quiet, dead_letter, parse, add_entry,
  sort_entries, peeked, measured, acquired, keep_valid, valid_entries, stored_batch, insert,
  completion_of, next_batch, completed, step,
}

peek-Prefix : (n : ℕ) (s : Shard) → Prefix (peek n s) s.queue
unfolding peek
peek-Prefix n s = take-Prefix n s.queue

pub none-ne-some : {u : ℕ} → ◌≢◌ {A = Option ℕ} none (some u)
none-ne-some e = cc

module _ (json_parse : Text → Option Json) (json_stringify : Map Field → Text) (to_iso : ℕ → Text)
    (parse_date : Text → Option ℕ) (o : SyncOptions) where
  -- The entry's link was acknowledged, or the entry is in an "invalid" letter.
  abbrev pub Covered : List Text → List Text → Text → Type 0
  Covered stored letters entry =
      In entry stored
      ⊎ ((at : ℕ) × In
            (dead_letter json_parse json_stringify to_iso parse_date o (codes "invalid") entry at)
            letters)

  -- A run that holds a batch knows the queue's head as long as it has the lock.
  abbrev pub Ready : List Text → ℕ → Shard → Phase → Type 0
  Ready stored t s (inserting n b) =
      All (Covered (valid_entries json_parse json_stringify to_iso parse_date o b.raw) b.letters)
        b.raw
      × (s.lock ≡ some t → Prefix b.raw s.queue)
  Ready stored t s (completing n b i) =
      All (Covered stored b.letters) b.raw × (s.lock ≡ some t → Prefix b.raw s.queue)
  Ready stored t s (wants n) = Unit
  Ready stored t s (holding n) = Unit
  Ready stored t s not_started = Unit
  Ready stored t s releasing = Unit
  Ready stored t s finished = Unit

  pub record Good (t : ℕ) (stored : List Text) (s : Shard) (d : Step) : Type 0 where
    pub line : d.trimmed ++ d.shard.queue ≡ s.queue
    pub covered : All (Covered stored d.buried) d.trimmed
    pub others :
        (u : ℕ) → u ≢ t → d.shard.lock ≡ some u → (s.lock ≡ some u) × (d.shard.queue ≡ s.queue)
    pub own : Ready (d.stored ++ stored) t d.shard d.running.phase

  quiet-Good :
      (t : ℕ) (stored : List Text) (s s' : Shard) (r : Running) (p : Phase)
      → s'.queue ≡ s.queue
      → ((u : ℕ) → u ≢ t → s'.lock ≡ some u → s.lock ≡ some u)
      → Ready stored t s' p
      → Good t stored s (quiet s' r p)
  quiet-Good t stored s s' r p e l h = record {
    line = e;
    covered = tt;
    others = λ u n k. (l u n k, e);
    own = h;
  }

  add_entry-raw :
      (x : Option PendingLink) (entry : Text) (at : ℕ) (b : Batch)
      → (add_entry json_parse json_stringify to_iso parse_date o x entry at b).raw ≡ entry ∷ b.raw
  unfolding add_entry
  add_entry-raw none entry at b = refl
  add_entry-raw (some link) entry at b = refl

  sort_entries-raw :
      (at : ℕ) (xs : List Text)
      → (sort_entries json_parse json_stringify to_iso parse_date o at xs).raw ≡ xs
  unfolding sort_entries
  sort_entries-raw at [] = refl
  sort_entries-raw at (x ∷ xs) =
      add_entry-raw (parse json_parse json_stringify to_iso parse_date o x) x at _
      ∙ ap (◌∷◌ x) (sort_entries-raw at xs)

  pub Covered-more :
      (stored stored' letters letters' : List Text) (entry : Text)
      → (In entry stored → In entry stored')
      → ((y : Text) → In y letters → In y letters')
      → Covered stored letters entry
      → Covered stored' letters' entry
  Covered-more st st' ls ls' entry f g (inl i) = inl (f i)
  Covered-more st st' ls ls' entry f g (inr (at, i)) = inr (at, g _ i)

  abbrev valid : List Text → List Text
  valid xs = valid_entries json_parse json_stringify to_iso parse_date o xs

  add_entry-Covered :
      (x : Text) (xs : List Text) (at : ℕ) (b : Batch) (link : Option PendingLink)
      → parse json_parse json_stringify to_iso parse_date o x ≡ link
      → All (Covered (valid xs) b.letters) xs
      → All
          (Covered
            (valid (x ∷ xs))
            (add_entry json_parse json_stringify to_iso parse_date o link x at b).letters)
          (x ∷ xs)
  unfolding add_entry valid_entries keep_valid
  add_entry-Covered x xs at b none e a =
      let keep = λ (l : Option PendingLink).
        keep_valid json_parse json_stringify to_iso parse_date o l x (valid xs) in
      (
        inr (at, inl refl),
        All-map
            (λ y c.
              Covered-more (valid xs) (valid (x ∷ xs)) b.letters
                (add_entry json_parse json_stringify to_iso parse_date o none x at b).letters y
                (subst (λ l. In y (keep l)) (sym e)) (λ z i. inr i) c)
            xs a,
      )
  add_entry-Covered x xs at b (some link) e a =
      let keep = λ (l : Option PendingLink).
        keep_valid json_parse json_stringify to_iso parse_date o l x (valid xs) in
      (
        inl (subst (λ l. In x (keep l)) (sym e) (inl refl)),
        All-map
            (λ y c.
              Covered-more _ _ _ _ y (λ i. subst (λ l. In y (keep l)) (sym e) (inr i)) (λ z i. i) c)
            xs a,
      )

  sort_entries-Covered :
      (at : ℕ) (xs : List Text)
      → All
          (Covered
            (valid xs)
            (sort_entries json_parse json_stringify to_iso parse_date o at xs).letters)
          xs
  unfolding sort_entries
  sort_entries-Covered at [] = tt
  sort_entries-Covered at (x ∷ xs) =
      add_entry-Covered x xs at _ (parse json_parse json_stringify to_iso parse_date o x) refl
        (sort_entries-Covered at xs)

  measured-Ready :
      (stored : List Text) (t : ℕ) (s : Shard) (xs : List Text)
      → Ready stored t s (measured json_parse json_stringify to_iso parse_date o xs)
  unfolding measured
  measured-Ready stored t s [] = tt
  measured-Ready stored t s (x ∷ xs) = tt

  acquired-Ready :
      (stored : List Text) (t : ℕ) (s : Shard) (n : ℕ) (free : Bool)
      → Ready stored t s (acquired json_parse json_stringify to_iso parse_date o n free)
  unfolding acquired
  acquired-Ready stored t s n false = tt
  acquired-Ready stored t s n true = elim (Bool-cases (ltb n o.max_batches_per_shard)) [
    | inl more ↦ rw more tt
    | inr no_more ↦ rw no_more tt
  ]

  peeked-Ready :
      (stored : List Text) (t : ℕ) (s : Shard) (n at : ℕ) (xs : List Text)
      → Prefix xs s.queue
      → Ready stored t s (peeked json_parse json_stringify to_iso parse_date o n at xs)
  unfolding peeked
  peeked-Ready stored t s n at [] p = tt
  peeked-Ready stored t s n at (x ∷ xs) p =
      let raw = sym (sort_entries-raw at (x ∷ xs)) in
      let b = sort_entries json_parse json_stringify to_iso parse_date o at (x ∷ xs) in
      (
        subst (λ ys. All (Covered (valid ys) b.letters) ys) raw (sort_entries-Covered at (x ∷ xs)),
        λ k. subst (λ ys. Prefix ys s.queue) raw p,
      )

  next_batch-Ready :
      (stored : List Text) (t : ℕ) (s : Shard) (n : ℕ) (b : Batch)
      → Ready stored t s (next_batch json_parse json_stringify to_iso parse_date o n b)
  unfolding next_batch
  next_batch-Ready stored t s n b = elim (Bool-cases (ltb (length b.raw) o.batch_size)) [
    | inl short ↦ rw short tt
    | inr full ↦ elim (Bool-cases (ltb (n + 1) o.max_batches_per_shard)) [
      | inl more ↦ rw (full, more) tt
      | inr no_more ↦ rw (full, no_more) tt
    ]
  ]

  stored-Good :
      (t n at : ℕ) (stored : List Text) (s : Shard) (r : Running) (b : Batch) (i : Inserted)
      → Ready stored t s (inserting n b)
      → Good t stored s (stored_batch json_parse json_stringify to_iso parse_date o n b i at s r)
  unfolding stored_batch
  stored-Good t n at stored s r b i (covers, head) = record {
    line = refl;
    covered = tt;
    others = λ u m k. (k, refl);
    own = (
      All-map
          (λ y c.
            Covered-more _ _ _ _ y (In-left y (valid b.raw) stored) (λ z h. In-left z b.letters _ h)
              c)
          b.raw covers,
      head,
    );
  }

  insert-Good :
      (t n at : ℕ) (stored : List Text) (s : Shard) (r : Running) (b : Batch)
      (links : List PendingLink) (answer : Option Inserted)
      → Ready stored t s (inserting n b)
      → Good t stored s
          (insert json_parse json_stringify to_iso parse_date o n b links answer at s r)
  unfolding insert
  insert-Good t n at stored s r b [] answer h =
      stored-Good t n at stored s r b (record { persisted = []; conflicts = [] }) h
  insert-Good t n at stored s r b (link ∷ links) none h =
      quiet-Good t stored s s r releasing refl (λ u m k. k) tt
  insert-Good t n at stored s r b (link ∷ links) (some i) h = stored-Good t n at stored s r b i h

  completed-Good :
      (t n : ℕ) (stored : List Text) (s : Shard) (r : Running) (b : Batch) (i : Inserted)
      → Ready stored t s (completing n b i)
      → Good t stored s (
          completed json_parse json_stringify to_iso parse_date o t n b i
            (complete t (completion_of json_parse json_stringify to_iso parse_date o b i) s)
            r)
  unfolding completed completion_of
  completed-Good t n stored s r b i (covers, head) =
      let c = completion_of json_parse json_stringify to_iso parse_date o b i in
      let after = λ (done : Shard × Bool).
        Good t stored s (completed json_parse json_stringify to_iso parse_date o t n b i done r) in
      elim (complete-cases t s c) [
        | inl e ↦ subst after (sym e) (quiet-Good t stored s s r finished refl (λ u m k. k) tt)
        | inr (mine, (s', e, q, l)) ↦
            let (rest, whole) = head mine in
            subst after (sym e) (record {
              line =
                  ap (λ ys. b.raw ++ ys)
                    (q ∙ ap (drop (length b.raw)) (sym whole) ∙ drop-length-append b.raw rest)
                  ∙ whole;
              covered = covers;
              others = λ u m k. absurd (none-ne-some (sym l ∙ k));
              own = next_batch-Ready stored t s' n b;
            })
      ]

  pub step-Good :
      (t : ℕ) (stored : List Text) (e : Event) (p : Phase) (s : Shard) (r : Running)
      → Ready stored t s p
      → Good t stored s (step json_parse json_stringify to_iso parse_date o t e p s r)
  unfolding step
  step-Good t stored (answers at) not_started s r h =
      quiet-Good t stored s s r _ refl (λ u m k. k) (measured-Ready stored t s s.queue)
  step-Good t stored (answers at) (wants n) s r h =
      quiet-Good t stored s _ r _ (acquire-queue t s) (acquire-lock t s)
        (acquired-Ready stored t (acquire t s).0 n (acquire t s).1)
  step-Good t stored (answers at) (holding n) s r h =
      quiet-Good t stored s s r _ refl (λ u m k. k)
        (peeked-Ready stored t s n at (peek o.batch_size s) (peek-Prefix o.batch_size s))
  step-Good t stored (answers at) (completing n b i) s r h = completed-Good t n stored s r b i h
  step-Good t stored (answers at) releasing s r h =
      quiet-Good t stored s _ r finished (release-queue t s) (λ u m k. release-lock t s u k) tt
  step-Good t stored (inserts answer at) (inserting n b) s r h =
      insert-Good t n at stored s r b b.valid answer h
  step-Good t stored reply_lost (wants n) s r h =
      quiet-Good t stored s _ r finished (acquire-queue t s) (acquire-lock t s) tt
  step-Good t stored reply_lost (completing n b i) s r h =
      let g = completed-Good t n stored s r b i h in
      record { line = g.line; covered = g.covered; others = g.others; own = tt }
  step-Good t stored reply_lost releasing s r h =
      quiet-Good t stored s _ r finished (release-queue t s) (λ u m k. release-lock t s u k) tt
  step-Good t stored fails not_started s r h = quiet-Good t stored s s r _ refl (λ u m k. k) tt
  step-Good t stored fails (wants n) s r h = quiet-Good t stored s s r _ refl (λ u m k. k) tt
  step-Good t stored fails (holding n) s r h = quiet-Good t stored s s r _ refl (λ u m k. k) tt
  step-Good t stored fails (completing n b i) s r h =
      quiet-Good t stored s s r _ refl (λ u m k. k) tt
  step-Good t stored fails releasing s r h = quiet-Good t stored s s r _ refl (λ u m k. k) tt
  step-Good t stored (answers at) (inserting n b) s r h =
      quiet-Good t stored s s r _ refl (λ u m k. k) h
  step-Good t stored (answers at) finished s r h = quiet-Good t stored s s r _ refl (λ u m k. k) h
  step-Good t stored (inserts answer at) not_started s r h =
      quiet-Good t stored s s r _ refl (λ u m k. k) h
  step-Good t stored (inserts answer at) (wants n) s r h =
      quiet-Good t stored s s r _ refl (λ u m k. k) h
  step-Good t stored (inserts answer at) (holding n) s r h =
      quiet-Good t stored s s r _ refl (λ u m k. k) h
  step-Good t stored (inserts answer at) (completing n b i) s r h =
      quiet-Good t stored s s r _ refl (λ u m k. k) h
  step-Good t stored (inserts answer at) releasing s r h =
      quiet-Good t stored s s r _ refl (λ u m k. k) h
  step-Good t stored (inserts answer at) finished s r h =
      quiet-Good t stored s s r _ refl (λ u m k. k) h
  step-Good t stored reply_lost not_started s r h = quiet-Good t stored s s r _ refl (λ u m k. k) h
  step-Good t stored reply_lost (holding n) s r h = quiet-Good t stored s s r _ refl (λ u m k. k) h
  step-Good t stored reply_lost (inserting n b) s r h =
      quiet-Good t stored s s r _ refl (λ u m k. k) h
  step-Good t stored reply_lost finished s r h = quiet-Good t stored s s r _ refl (λ u m k. k) h
  step-Good t stored fails (inserting n b) s r h = quiet-Good t stored s s r _ refl (λ u m k. k) h
  step-Good t stored fails finished s r h = quiet-Good t stored s s r _ refl (λ u m k. k) h
