-- ===== src/Clicks/Closing.antt =====
-- `close` ends: a code that the sink never matches is dropped after `maxUnmatchedAttempts` flushes.
use wrap_link.Prelude.{
  ℕ, zero, suc, ◌+◌, ◌≡◌, ◌≢◌, refl, sym, ap, subst, ◌∙◌, ◌≤◌, ◌<◌, inl, inr, true, false, List, [],
  ◌∷◌, Option, none, some, Text, text_eq, text_ne, text_eq_iff, leb, if◌then◌else◌, AllDistinct, In,
  arith, Bool-cases,
}
use wrap_link.Prelude.Maps.{Map, keys, get, set, delete, has, get-set, get-delete_ne, In-keys-set}
use wrap_link.Clicks.{
  ClickBuffer, no_flush, writing, begin_flush, flush_unless, add_pending, count_of, retry,
  retry_found, retry_all, Answer, wrote, unmatched_of, forget_matched, answer_flush, clear_flush,
  flush_round, Closed, returned, after_round, has_pending, close_rounds,
}

abbrev attempts_of : Text → ClickBuffer → ℕ
attempts_of code b = count_of code b.unmatched_attempts

count-set_self : (c : Text) (v : ℕ) (m : Map ℕ) → count_of c (set c v m) ≡ v
count-set_self c v m = rw (get-set c c v m, (text_eq_iff c c).1 refl) refl

count-set_ne : (c d : Text) (v : ℕ) (m : Map ℕ) → c ≢ d → count_of d (set c v m) ≡ count_of d m
count-set_ne c d v m n = rw (get-set c d v m, text_ne c d n) refl

count-delete_ne : (c d : Text) (m : Map ℕ) → c ≢ d → count_of d (delete c m) ≡ count_of d m
count-delete_ne c d m n = rw (get-delete_ne c d m (text_ne c d n)) refl

has-true : (c : Text) (cs : List Text) → In c cs → has c cs ≡ true
unfolding has
has-true c [] h = absurd h
has-true c (d ∷ cs) (inl e) = rw ((text_eq_iff d c).1 (sym e)) refl
has-true c (d ∷ cs) (inr h) = ground (arith, has-true c cs h)

-- The attempts of an unmatched code are kept.
forget-kept :
    (batch : Map ℕ) (unmatched : List Text) (attempts : Map ℕ) (code : Text)
    → has code unmatched ≡ true
    → count_of code (forget_matched batch unmatched attempts) ≡ count_of code attempts
unfolding forget_matched
forget-kept [] u a code h = refl
forget-kept ((j, n) ∷ m) u a code h = elim (Bool-cases (has j u)) [
  | inl kept ↦ rw (kept, forget_matched) (forget-kept m u a code h)
  | inr gone ↦
      rw (gone, forget_matched)
        (forget-kept m u (delete j a) code h ∙ count-delete_ne j code a (λ e. apart e gone))
]
  where
    apart : j ≡ code → has j u ≡ false → ⊥
    apart e gone = cc

get-In : (c : Text) (m : Map ℕ) {n : ℕ} → get c m ≡ some n → In c (keys m)
unfolding get
get-In c [] e = cc
get-In c ((d, k) ∷ m) e = elim (Bool-cases (text_eq d c)) [
  | inl same ↦ inl (sym ((text_eq_iff d c).0 same))
  | inr other ↦ inr (get-In c m (rw (other, get) at e))
]

-- In the loop over the unmatched codes of a batch: what is pending was tried once more and not given
-- up, and the codes that are left have `k` attempts and are not pending.
leb-false : {a b : ℕ} → leb a b ≡ false → b < a
leb-false h = ground arith

record Looping (batch : Map ℕ) (k : ℕ) (left : List Text) (b : ClickBuffer) : Type 0 where
  tried : (c : Text) → In c (keys b.pending) → suc k ≤ attempts_of c b
  within : (c : Text) → In c (keys b.pending) → attempts_of c b < b.max_unmatched_attempts
  waiting : (c : Text) → In c left → In c (keys batch) → k ≤ attempts_of c b
  apart : (c : Text) → In c left → ¬ In c (keys b.pending)

module _ (batch : Map ℕ) (k : ℕ) (code : Text) (left : List Text) (b : ClickBuffer)
    (fresh : ¬ In code left) (v : Looping batch k (code ∷ left) b) where
  not_pending : (c : Text) → In c (keys b.pending) → code ≢ c
  not_pending c h e = v.apart c (inl (sym e)) h

  not_left : (c : Text) → In c left → code ≢ c
  not_left c h e = fresh (subst (λ x. In x left) (sym e) h)

  given_up-Looping :
      (count : ℕ)
      → Looping batch k left (record b {
        unmatched_attempts = delete code b.unmatched_attempts;
        dropped = b.dropped + count;
      })
  given_up-Looping count = record {
    tried = λ c h. rw (count-delete_ne code c b.unmatched_attempts (not_pending c h)) (v.tried c h);
    within =
        λ c h. rw (count-delete_ne code c b.unmatched_attempts (not_pending c h)) (v.within c h);
    waiting = λ c h p.
        rw (count-delete_ne code c b.unmatched_attempts (not_left c h)) (v.waiting c (inr h) p);
    apart = λ c h. v.apart c (inr h);
  }

  again-Looping :
      (count : ℕ)
      → In code (keys batch)
      → attempts_of code b + 1 < b.max_unmatched_attempts
      → Looping batch k left (
          add_pending code count (record b {
            unmatched_attempts = set code (attempts_of code b + 1) b.unmatched_attempts;
          }))
  unfolding add_pending
  again-Looping count present below = record {
    tried = λ c h. elim (In-keys-set code c _ b.pending h) [
      | inl e ↦
          rw (e, count-set_self code _ b.unmatched_attempts)
            (omega (arith, v.waiting code (inl refl) present))
      | inr old ↦
          rw (count-set_ne code c _ b.unmatched_attempts (not_pending c old)) (v.tried c old)
    ];
    within = λ c h. elim (In-keys-set code c _ b.pending h) [
      | inl e ↦ rw (e, count-set_self code _ b.unmatched_attempts) below
      | inr old ↦
          rw (count-set_ne code c _ b.unmatched_attempts (not_pending c old)) (v.within c old)
    ];
    waiting = λ c h p.
        rw (count-set_ne code c _ b.unmatched_attempts (not_left c h)) (v.waiting c (inr h) p);
    apart = λ c h l. elim (In-keys-set code c _ b.pending l) [
      | inl e ↦ not_left c h (sym e)
      | inr old ↦ v.apart c (inr h) old
    ];
  }

  retry-Looping : (count : ℕ) → In code (keys batch) → Looping batch k left (retry code count b)
  unfolding retry
  retry-Looping count present =
      elim (Bool-cases (leb b.max_unmatched_attempts (attempts_of code b + 1))) [
        | inl enough ↦ rw (enough, retry) (given_up-Looping count)
        | inr again ↦ rw (again, retry) (again-Looping count present (leb-false again))
      ]

  skip-Looping : Looping batch k left b
  skip-Looping = record {
    tried = v.tried;
    within = v.within;
    waiting = λ c h. v.waiting c (inr h);
    apart = λ c h. v.apart c (inr h);
  }

  retry_found-Looping :
      (found : Option ℕ) → get code batch ≡ found → Looping batch k left (retry_found found code b)
  unfolding retry_found
  retry_found-Looping none e = skip-Looping
  retry_found-Looping (some count) e = retry-Looping count (get-In code batch e)

retry_all-Looping :
    (batch : Map ℕ) (k : ℕ) (left : List Text) (b : ClickBuffer)
    → AllDistinct left
    → Looping batch k left b
    → Looping batch k [] (retry_all batch left b)
unfolding retry_all
retry_all-Looping batch k [] b d v = v
retry_all-Looping batch k (code ∷ left) b d v =
    retry_all-Looping batch k left (retry_found (get code batch) code b) d.1
      (retry_found-Looping batch k code left b d.0 v (get code batch) refl)

-- Between the rounds of `close`: no flush is under way, every pending code has at least `k` attempts
-- behind it, and after the first round fewer than the maximum.
record Round (k : ℕ) (b : ClickBuffer) : Type 0 where
  free : b.flush_promise ≡ no_flush
  tried : (c : Text) → In c (keys b.pending) → k ≤ attempts_of c b
  within : 0 < k → (c : Text) → In c (keys b.pending) → attempts_of c b < b.max_unmatched_attempts

-- A flush that the sink answers, written out.
flushed : Map ℕ → List Text → ClickBuffer → ClickBuffer
flushed batch unmatched b =
    record (retry_all batch unmatched (record b {
      pending = [];
      pending_total = 0;
      flush_promise = writing batch;
      unmatched_attempts = forget_matched batch unmatched b.unmatched_attempts;
    })) { flush_promise = no_flush }

flush_round-flushed :
    (b : ClickBuffer) (x : Text × ℕ) (m : Map ℕ) (codes : Option (List Text))
    → b.flush_promise ≡ no_flush
    → b.pending ≡ x ∷ m
    → flush_round (wrote codes) b ≡ flushed (x ∷ m) (unmatched_of codes) b
unfolding flush_round flushed
flush_round-flushed b x m codes f e =
    ap (λ p. clear_flush (answer_flush (wrote codes) (flush_unless p b))) f
    ∙ ap (λ q. clear_flush (answer_flush (wrote codes) (begin_flush b q))) e

flushed-Round :
    (k : ℕ) (b : ClickBuffer) (batch : Map ℕ) (unmatched : List Text)
    → AllDistinct unmatched
    → b.pending ≡ batch
    → Round k b
    → Round (suc k) (flushed batch unmatched b)
unfolding flushed
flushed-Round k b batch u d e r =
    let v =
      retry_all-Looping batch k u
        (record b {
          pending = [];
          pending_total = 0;
          flush_promise = writing batch;
          unmatched_attempts = forget_matched batch u b.unmatched_attempts;
        })
        d
        (record {
          tried = λ c h. absurd h;
          within = λ c h. absurd h;
          waiting = λ c h p.
              rw (forget-kept batch u b.unmatched_attempts c (has-true c u h))
                (r.tried c (subst (λ m. In c (keys m)) (sym e) p));
          apart = λ c h l. l;
        }) in
    record { free = refl; tried = v.tried; within = λ _. v.within }

retry-max :
    (code : Text) (count : ℕ) (b : ClickBuffer)
    → (retry code count b).max_unmatched_attempts ≡ b.max_unmatched_attempts
unfolding retry add_pending
retry-max code count b = ground arith

retry_found-max :
    (found : Option ℕ) (code : Text) (b : ClickBuffer)
    → (retry_found found code b).max_unmatched_attempts ≡ b.max_unmatched_attempts
unfolding retry_found
retry_found-max none code b = refl
retry_found-max (some count) code b = retry-max code count b

retry_all-max :
    (batch : Map ℕ) (left : List Text) (b : ClickBuffer)
    → (retry_all batch left b).max_unmatched_attempts ≡ b.max_unmatched_attempts
unfolding retry_all
retry_all-max batch [] b = refl
retry_all-max batch (code ∷ left) b =
    retry_all-max batch left (retry_found (get code batch) code b)
    ∙ retry_found-max (get code batch) code b

flushed-max :
    (batch : Map ℕ) (u : List Text) (b : ClickBuffer)
    → (flushed batch u b).max_unmatched_attempts ≡ b.max_unmatched_attempts
unfolding flushed
flushed-max batch u b = retry_all-max batch u _

-- The rounds left run out only when nothing is pending.
more_rounds :
    (k : ℕ) (b : ClickBuffer) (x : Text × ℕ) (m : Map ℕ)
    → b.pending ≡ x ∷ m
    → 0 < b.max_unmatched_attempts
    → Round k b
    → k < b.max_unmatched_attempts
more_rounds zero b x m e p r = p
more_rounds (suc k) b x m e p r =
    let here : In x.0 (keys b.pending) = subst (λ m. In x.0 (keys m)) (sym e) (inl refl) in
    omega (arith, r.tried x.0 here, r.within (omega arith) x.0 here)

-- A sink that never fails.
abbrev pub writes : (ℕ → Map ℕ → Option (List Text)) → ℕ → Map ℕ → Answer
writes sink round batch = wrote (sink round batch)

module _ (sink : ℕ → Map ℕ → Option (List Text))
    (sets : (round : ℕ) (batch : Map ℕ) → AllDistinct (unmatched_of (sink round batch))) where
  -- One step of the loop, with the pending clicks as an argument.
  close_at : ℕ → ℕ → ClickBuffer → Map ℕ → Option Closed
  close_at fuel round b m =
      let b' = flush_round (writes sink round m) b in
      let rest = close_rounds (writes sink) fuel (round + 1) b' in
      if has_pending m then after_round (writes sink round m) b' rest else some (returned b)

  next-Round :
      (k : ℕ) (b : ClickBuffer) (x : Text × ℕ) (m : Map ℕ)
      → b.pending ≡ x ∷ m
      → Round k b
      → Round (k + 1) (flushed (x ∷ m) (unmatched_of (sink k (x ∷ m))) b)
  next-Round k b x m e r =
      let up : k + 1 ≡ suc k = omega arith in
      rw up (flushed-Round k b (x ∷ m) (unmatched_of (sink k (x ∷ m))) (sets k (x ∷ m)) e r)

  rounds_end :
      (fuel k : ℕ) (b : ClickBuffer) (p : Map ℕ)
      → b.pending ≡ p
      → 0 < b.max_unmatched_attempts
      → k ≤ b.max_unmatched_attempts
      → k + fuel ≡ b.max_unmatched_attempts + 1
      → Round k b
      → (c : ClickBuffer) × (close_rounds (writes sink) fuel k b ≡ some (returned c))
        × (c.pending ≡ [])
  unfolding close_rounds close_at
  rounds_end zero k b p e q h l r = absurd (omega arith)
  rounds_end (suc fuel) k b [] e q h l r = (b, ap (λ m. close_at fuel k b m) e, e)
  rounds_end (suc fuel) k b (x ∷ m) e q h l r =
      let u = unmatched_of (sink k (x ∷ m)) in
      let b' = flushed (x ∷ m) u b in
      let below = more_rounds k b x m e q r in
      let (c, ran, empty) =
        rounds_end fuel (k + 1) b' b'.pending refl (omega (arith, flushed-max (x ∷ m) u b))
          (omega (arith, flushed-max (x ∷ m) u b)) (omega (arith, flushed-max (x ∷ m) u b))
          (next-Round k b x m e r) in
      (
        c,
        ap (λ m. close_at fuel k b m) e
            ∙ ap (close_rounds (writes sink) fuel (k + 1))
                (flush_round-flushed b x m (sink k (x ∷ m)) r.free e)
            ∙ ran,
        empty,
      )

  -- When no flush is under way and the sink never fails, `close` returns after at most
  -- `maxUnmatchedAttempts` flushes, and then no click is pending, even if the sink never matches
  -- some codes. The sink's answers must be sets.
  pub close_drains :
      (b : ClickBuffer)
      → b.flush_promise ≡ no_flush
      → 0 < b.max_unmatched_attempts
      → (c : ClickBuffer) × (close_rounds (writes sink) (b.max_unmatched_attempts + 1) 0 b
          ≡ some (returned c))
        × (c.pending ≡ [])
  close_drains b free p =
      rounds_end (b.max_unmatched_attempts + 1) 0 b b.pending refl p (omega arith) (omega arith)
        (record { free = free; tried = λ c h. omega arith; within = λ h. absurd (omega arith) })
