-- ===== src/SyncWorker/Lanes/Visits.antt =====
-- Whatever the order in which the tasks settle, each shard is visited once.
use wrap_link.Prelude.{
  Option, none, some, ℕ, zero, suc, ◌+◌, ◌≤◌, ◌<◌, min, ◌≡◌, refl, sym, ap, subst, ◌∙◌, Bool, true,
  false, ◌||◌, List, [], ◌∷◌, inl, inr, ◌⊎◌, length, any, map, ltb, ltb→lt, ◌==◌, ==_iff,
  Bool-cases, if◌then◌else◌, arith,
}
use wrap_link.SyncWorker.Lanes.{
  remove, Lanes, take_next, start_lanes, begin_visits, is_awaited, end_task, settle, run,
}

-- How many times the index is in the list.
unfoldable pub occurrences : ℕ → List ℕ → ℕ
occurrences i [] = 0
occurrences i (j ∷ js) = (if j == i then 1 else 0) + occurrences i js

later : (a b : Bool) → a ≡ false → (a || b) ≡ true → b ≡ true
later a b e h = ground arith

add_third : (a b : ℕ) {x : ℕ} (y : ℕ) → x ≡ b + y → a + x ≡ b + (a + y)
add_third a b y h = omega arith

occurrences-remove :
    (i j : ℕ) (js : List ℕ)
    → any (λ k. k == j) js ≡ true
    → occurrences i js ≡ (if j == i then 1 else 0) + occurrences i (remove j js)
unfolding occurrences remove
occurrences-remove i j [] h = ground arith
occurrences-remove i j (k ∷ js) h = elim (Bool-cases (k == j)) [
  | inl e ↦ rw e (ap (λ n. (if n == i then 1 else 0) + occurrences i js) ((==_iff k j).0 e))
  | inr e ↦ rw e (
      add_third (if k == i then 1 else 0) (if j == i then 1 else 0) (occurrences i (remove j js))
        (occurrences-remove i j js (later (k == j) (any (λ n. n == j) js) e h)))
]

length-remove :
    (j : ℕ) (js : List ℕ) → any (λ k. k == j) js ≡ true → length js ≡ suc (length (remove j js))
unfolding remove
length-remove j [] h = ground arith
length-remove j (k ∷ js) h = elim (Bool-cases (k == j)) [
  | inl e ↦ rw e (omega arith)
  | inr e ↦ rw e (omega (arith, length-remove j js (later (k == j) (any (λ n. n == j) js) e h)))
]

-- What one more started index adds.
count_next :
    (i next o p : ℕ)
    → o + p ≡ (if ltb i next then 1 else 0)
    → (if next == i then 1 else 0) + o + p ≡ (if ltb i (next + 1) then 1 else 0)
count_next i next o p h = ground arith

returned_one : (a x y o f p : ℕ) → x ≡ a + y → x + (o + f) ≡ p → y + (a + o + f) ≡ p
returned_one a x y o f p h k = omega arith

rejected_one : (a x y o f p : ℕ) → x ≡ a + y → x + (o + f) ≡ p → y + (o + (a + f)) ≡ p
rejected_one a x y o f p h k = omega arith

at_end : (next size : ℕ) → next ≤ size → ltb next size ≡ false → next ≡ size
at_end next size h e = ground arith

zero_plus : (n : ℕ) → n ≡ 0 + n
zero_plus n = omega arith

suc_plus : (m n : ℕ) → m + suc n ≡ suc m + n
suc_plus m n = omega arith

plus_none : (n : ℕ) → n + 0 ≡ n
plus_none n = omega arith

none_below : (i : ℕ) → 0 + (0 + 0) ≡ (if ltb i 0 then 1 else 0)
none_below i = ground arith

once_each :
    (i next size o : ℕ)
    → next ≡ size
    → i < size
    → 0 + (o + 0) ≡ (if ltb i next then 1 else 0)
    → o ≡ 1
once_each i next size o e h k = ground arith

module _ (T : Type 0) where
  unfoldable pub indices : Lanes T → List ℕ
  indices s = map (λ r. r.0) s.results

  -- Below `next` each index is awaited, has a result or has failed, once; from there on none. The
  -- tasks that run and the lanes that have failed are no more than the lanes, and as many unless all
  -- tasks have started.
  pub record Visited (lanes size : ℕ) (s : Lanes T) : Type 0 where
    pub started : s.next ≤ size
    pub once :
        (i : ℕ)
        → occurrences i s.awaited + (occurrences i (indices s) + occurrences i s.failures)
          ≡ (if ltb i s.next then 1 else 0)
    pub bounded : length s.awaited + length s.failures ≤ lanes
    pub busy : (s.next ≡ size) ⊎ (length s.awaited + length s.failures ≡ lanes)
    pub accounted : length s.awaited + (length s.results + length s.failures) ≡ s.next

  took :
      (lanes size : ℕ) (s : Lanes T)
      → Visited lanes size s
      → s.next < size
      → Visited (suc lanes) size (record s { next = s.next + 1; awaited = s.next ∷ s.awaited })
  unfolding occurrences indices
  took lanes size s v h = record {
    started = omega arith;
    once = λ i.
        count_next i s.next (occurrences i s.awaited)
          (occurrences i (indices s) + occurrences i s.failures) (v.once i);
    bounded = omega (arith, v.bounded);
    busy = elim v.busy [ inl e ↦ absurd (omega arith) | inr e ↦ inr (omega arith) ];
    accounted = omega (arith, v.accounted);
  }

  take_next-Visited :
      (lanes size : ℕ) (s : Lanes T)
      → Visited lanes size s
      → Visited (suc lanes) size (take_next T size s)
  unfolding take_next
  take_next-Visited lanes size s v = elim (Bool-cases (ltb s.next size)) [
    | inl e ↦ rw e (took lanes size s v (ltb→lt s.next size e))
    | inr e ↦ rw e (record {
      started = v.started;
      once = v.once;
      bounded = omega (arith, v.bounded);
      busy = inl (at_end s.next size v.started e);
      accounted = v.accounted;
    })
  ]

  start_lanes-Visited :
      (more lanes size : ℕ) (s : Lanes T)
      → Visited lanes size s
      → Visited (more + lanes) size (start_lanes T more size s)
  unfolding start_lanes
  start_lanes-Visited zero lanes size s v = subst (λ n. Visited n size s) (zero_plus lanes) v
  start_lanes-Visited (suc more) lanes size s v =
      subst (λ n. Visited n size (start_lanes T more size (take_next T size s)))
        (suc_plus more lanes)
        (start_lanes-Visited more (suc lanes) size (take_next T size s)
          (take_next-Visited lanes size s v))

  settled :
      (lanes size i : ℕ) (value : T) (s : Lanes T)
      → is_awaited T i s ≡ true
      → Visited (suc lanes) size s
      → Visited lanes size
          (record s { awaited = remove i s.awaited; results = (i, value) ∷ s.results })
  unfolding is_awaited occurrences indices
  settled lanes size i value s h v = record {
    started = v.started;
    once = λ j.
        returned_one (if i == j then 1 else 0) (occurrences j s.awaited)
          (occurrences j (remove i s.awaited)) (occurrences j (indices s))
          (occurrences j s.failures) _ (occurrences-remove j i s.awaited h) (v.once j);
    bounded = omega (arith, v.bounded, length-remove i s.awaited h);
    busy = elim v.busy [ inl e ↦ inl e | inr e ↦ inr (omega (arith, length-remove i s.awaited h)) ];
    accounted = omega (arith, v.accounted, length-remove i s.awaited h);
  }

  failed :
      (lanes size i : ℕ) (s : Lanes T)
      → is_awaited T i s ≡ true
      → Visited lanes size s
      → Visited lanes size (record s { awaited = remove i s.awaited; failures = i ∷ s.failures })
  unfolding is_awaited occurrences indices
  failed lanes size i s h v = record {
    started = v.started;
    once = λ j.
        rejected_one (if i == j then 1 else 0) (occurrences j s.awaited)
          (occurrences j (remove i s.awaited)) (occurrences j (indices s))
          (occurrences j s.failures) _ (occurrences-remove j i s.awaited h) (v.once j);
    bounded = omega (arith, v.bounded, length-remove i s.awaited h);
    busy = elim v.busy [ inl e ↦ inl e | inr e ↦ inr (omega (arith, length-remove i s.awaited h)) ];
    accounted = omega (arith, v.accounted, length-remove i s.awaited h);
  }

  end_task-Visited :
      (lanes size i : ℕ) (result : Option T) (s : Lanes T)
      → is_awaited T i s ≡ true
      → Visited lanes size s
      → Visited lanes size (end_task T size i result s)
  unfolding end_task is_awaited
  end_task-Visited lanes size i none s h v = failed lanes size i s h v
  end_task-Visited zero size i (some value) s h v =
      absurd (omega (arith, v.bounded, length-remove i s.awaited h))
  end_task-Visited (suc lanes) size i (some value) s h v =
      take_next-Visited lanes size _ (settled lanes size i value s h v)

  settle-Visited :
      (lanes size : ℕ) (event : ℕ × Option T) (s : Lanes T)
      → Visited lanes size s
      → Visited lanes size (settle T size event s)
  unfolding settle
  settle-Visited lanes size (i, result) s v = elim (Bool-cases (is_awaited T i s)) [
    | inl e ↦ rw e (end_task-Visited lanes size i result s e v)
    | inr e ↦ rw e v
  ]

  run-Visited :
      (lanes size : ℕ) (events : List (ℕ × Option T)) (s : Lanes T)
      → Visited lanes size s
      → Visited lanes size (run T size events s)
  unfolding run
  run-Visited lanes size [] s v = v
  run-Visited lanes size (event ∷ events) s v =
      run-Visited lanes size events (settle T size event s) (settle-Visited lanes size event s v)

  begin_visits-Visited :
      (concurrency size : ℕ) → Visited (min concurrency size) size (begin_visits T concurrency size)
  unfolding begin_visits occurrences indices
  begin_visits-Visited concurrency size =
      subst (λ n. Visited n size (begin_visits T concurrency size))
        (plus_none (min concurrency size))
        (start_lanes-Visited (min concurrency size) 0 size
          (record { next = 0; awaited = []; results = []; failures = [] })
          (record {
            started = omega arith;
            once = λ i. none_below i;
            bounded = omega arith;
            busy = inr refl;
            accounted = omega arith;
          }))

  -- Whatever tasks have returned or rejected, and in whatever order: the tasks that run and those
  -- that rejected are together no more than `concurrency` says, nor than there are shards, and that
  -- many unless the tasks of all shards have started; and the tasks that have started are those that
  -- run, those that have a result and those that rejected.
  pub visits_bounded :
      (concurrency size : ℕ) (events : List (ℕ × Option T))
      → (let s = run T size events (begin_visits T concurrency size) in
          (length s.awaited + length s.failures ≤ min concurrency size)
          × ((s.next ≡ size) ⊎ (length s.awaited + length s.failures ≡ min concurrency size))
          × (length s.awaited + (length s.results + length s.failures) ≡ s.next))
  visits_bounded concurrency size events =
      let v =
        run-Visited (min concurrency size) size events (begin_visits T concurrency size)
          (begin_visits-Visited concurrency size) in
      (v.bounded, v.busy, v.accounted)

  -- When the lanes have ended and no task rejected, each shard has its result, once: with one lane or
  -- more, whatever tasks have settled and in whatever order, if no task is awaited any more and none
  -- rejected, then there are as many results as shards, and each index of a shard is among them once.
  pub visits_complete :
      (concurrency size : ℕ) (events : List (ℕ × Option T)) (i : ℕ)
      → 0 < concurrency
      → (run T size events (begin_visits T concurrency size)).awaited ≡ []
      → (run T size events (begin_visits T concurrency size)).failures ≡ []
      → i < size
      → (occurrences i (indices (run T size events (begin_visits T concurrency size))) ≡ 1)
        × (length (run T size events (begin_visits T concurrency size)).results ≡ size)
  unfolding occurrences
  visits_complete concurrency size events i some_lane ended sound inside =
      let s = run T size events (begin_visits T concurrency size) in
      let v =
        run-Visited (min concurrency size) size events (begin_visits T concurrency size)
          (begin_visits-Visited concurrency size) in
      let done : s.next ≡ size = elim v.busy [
        | inl e ↦ e
        | inr e ↦ absurd (omega (arith, ap length ended, ap length sound))
      ] in
      (
        once_each i s.next size (occurrences i (indices s)) done inside (
            ap (λ js. occurrences i js + (occurrences i (indices s) + 0)) (sym ended)
            ∙ ap (λ js. occurrences i s.awaited + (occurrences i (indices s) + occurrences i js))
                (sym sound)
            ∙ v.once i),
        omega (arith, done, ap length ended, ap length sound, v.accounted),
      )
