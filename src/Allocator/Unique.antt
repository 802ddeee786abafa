-- ===== src/Allocator/Unique.antt =====
-- No id is handed out twice, in any process and under any interleaving, as long as the source never
-- repeats one; so no code is.
use wrap_link.Prelude.{
  ℕ, ◌+◌, ◌<◌, ◌≤◌, ◌≡◌, refl, sym, ap, subst, ◌∙◌, ◌≢◌, ◌⊎◌, inl, inr, true, List, [], ◌∷◌, ◌++◌,
  Option, some, Result, ok, nat_value, ◌==◌, if◌then◌else◌, Text, arith, pos, Bool-cases, ==_iff,
  All, all, length, In, In-append, AllDistinct, AllDistinct-append,
}
use wrap_link.Base62.{allocated_code_space}
use wrap_link.Base62.Laws.{is_alphanumeric}
use wrap_link.Scrambler.{CodeScrambler, encode}
use wrap_link.Scrambler.Encode.{encode_ok, encode_injective}
use wrap_link.Allocator.{
  IdBlock, Allocator, Outcome, returned, rejected, start_of, Event, step, World, world_step, run,
  fresh_world,
}
use wrap_link.Allocator.Moves.{Move, keep, take, refill, ids, blocks, Coded, step-Move, step-Coded}

abbrev pub InBlocks : ℕ → List IdBlock → Type 0
InBlocks id [] = ⊥
InBlocks id (b ∷ bs) = ((start_of b ≤ id) × (id < start_of b + nat_value b.size)) ⊎ InBlocks id bs

-- No block that the source answers has an id in common with an earlier one.
abbrev pub NoOverlap : List IdBlock → List (ℕ × Event) → Type 0
NoOverlap seen [] = Unit
NoOverlap seen ((p, e) ∷ es) =
    ((id : ℕ) → InBlocks id (blocks e) → ¬ InBlocks id seen) × NoOverlap (blocks e ++ seen) es

abbrev pub InStock : ℕ → Allocator → Type 0
InStock id a = (a.next ≤ id) × (id < a.end)

record Inv (seen : List IdBlock) (w : World) : Type 0 where
  received : (id : ℕ) → In id (ids w.log) → InBlocks id seen
  distinct : AllDistinct (ids w.log)
  inside : (id : ℕ) → In id (ids w.log) → id < allocated_code_space
  stock_received : (p id : ℕ) → InStock id (w.process p) → InBlocks id seen
  stock_unused : (p id : ℕ) → InStock id (w.process p) → ¬ In id (ids w.log)
  stock_inside : (p : ℕ) → (w.process p).end ≤ allocated_code_space
  apart : (p q id : ℕ) → p ≢ q → InStock id (w.process p) → ¬ InStock id (w.process q)

ids-append : (os ps : List Outcome) → ids (os ++ ps) ≡ ids os ++ ids ps
ids-append [] ps = refl
ids-append (returned caller id code ∷ os) ps = ap (◌∷◌ id) (ids-append os ps)
ids-append (rejected caller e ∷ os) ps = ids-append os ps

later : (id : ℕ) (bs seen : List IdBlock) → InBlocks id seen → InBlocks id (bs ++ seen)
later id [] seen h = h
later id (b ∷ bs) seen h = inr (later id bs seen h)

-- One process after its move, the others as they were.
abbrev put : World → ℕ → Allocator → List Outcome → World
put w p a os = record { process = λ q. if q == p then a else w.process q; log = os ++ w.log }

sooner : (id : ℕ) (bs seen : List IdBlock) → InBlocks id bs → InBlocks id (bs ++ seen)
sooner id [] seen h = absurd h
sooner id (b ∷ bs) seen (inl h) = inl h
sooner id (b ∷ bs) seen (inr h) = inr (sooner id bs seen h)

process-cases :
    (w : World) (p q : ℕ) (a : Allocator) (os : List Outcome)
    → ((q ≡ p) × ((put w p a os).process q ≡ a))
      ⊎ ((q ≢ p) × ((put w p a os).process q ≡ w.process q))
process-cases w p q a os = elim (Bool-cases (q == p)) [
  | inl same ↦ inl ((==_iff q p).0 same, rw same)
  | inr other ↦ inr (λ e. ground arith, rw other)
]

-- A move, as what it does to the ids in stock: they come from the old stock or from the event's
-- block, and those taken were in the old stock and are not in the new.
record Keeps (old a : Allocator) (bs : List IdBlock) (os : List Outcome) : Type 0 where
  from : (id : ℕ) → InStock id a → InStock id old ⊎ InBlocks id bs
  taken : (id : ℕ) → In id (ids os) → InStock id old
  gone : (id : ℕ) → In id (ids os) → ¬ InStock id a
  once : AllDistinct (ids os)
  bound : old.end ≤ allocated_code_space → a.end ≤ allocated_code_space

Move-Keeps :
    {old a : Allocator} {bs : List IdBlock} {os : List Outcome}
    → Move old a bs os
    → Keeps old a bs os
Move-Keeps (keep e f g) = record {
  from = λ id h. inl (omega arith);
  taken = λ id h. absurd (subst (In id) g h);
  gone = λ id h. absurd (subst (In id) g h);
  once = rw g tt;
  bound = λ h. omega arith;
}
Move-Keeps {old} (take l e f g) = record {
  from = λ id h. inl (omega arith);
  taken =
      λ id h. elim (subst (In id) g h) [ inl same ↦ omega arith | inr no_more ↦ absurd no_more ];
  gone =
      λ id h k. elim (subst (In id) g h) [ inl same ↦ omega arith | inr no_more ↦ absurd no_more ];
  once = rw g (λ h. h, tt);
  bound = λ h. omega arith;
}
Move-Keeps (refill b i e f l g) = record {
  from = λ id h. inr (rw i (inl (omega arith)));
  taken = λ id h. absurd (subst (In id) g h);
  gone = λ id h. absurd (subst (In id) g h);
  once = rw g tt;
  bound = λ h. l;
}

module _ (seen : List IdBlock) (w : World) (p : ℕ) (a : Allocator) (bs : List IdBlock)
    (os : List Outcome) (v : Inv seen w) (fresh : (id : ℕ) → InBlocks id bs → ¬ InBlocks id seen)
    (k : Keeps (w.process p) a bs os) where
  In-log : (id : ℕ) → In id (ids (os ++ w.log)) → In id (ids os) ⊎ In id (ids w.log)
  In-log id h = In-append id (ids os) (ids w.log) (rw (ids-append os w.log) at h)

  stock_known : (id : ℕ) → InStock id a → InBlocks id (bs ++ seen)
  stock_known id h = elim (k.from id h) [
    | inl old ↦ later id bs seen (v.stock_received p id old)
    | inr new ↦ sooner id bs seen new
  ]

  stock_not_logged : (id : ℕ) → InStock id a → ¬ In id (ids (os ++ w.log))
  stock_not_logged id h l = elim (In-log id l) [
    | inl now ↦ k.gone id now h
    | inr before ↦ elim (k.from id h) [
      | inl old ↦ v.stock_unused p id old before
      | inr new ↦ fresh id new (v.received id before)
    ]
  ]

  stock_apart : (q id : ℕ) → p ≢ q → InStock id a → ¬ InStock id (w.process q)
  stock_apart q id n h other = elim (k.from id h) [
    | inl old ↦ v.apart p q id n old other
    | inr new ↦ fresh id new (v.stock_received q id other)
  ]

  put-Inv : Inv (bs ++ seen) (put w p a os)
  put-Inv = record {
    received = λ id h. elim (In-log id h) [
      | inl now ↦ later id bs seen (v.stock_received p id (k.taken id now))
      | inr before ↦ later id bs seen (v.received id before)
    ];
    distinct = rw (ids-append os w.log) (
        AllDistinct-append (ids os) (ids w.log) k.once v.distinct
          (λ id now before. v.stock_unused p id (k.taken id now) before));
    inside = λ id h. elim (In-log id h) [
      | inl now ↦ omega (arith, k.taken id now, v.stock_inside p)
      | inr before ↦ v.inside id before
    ];
    stock_received = λ q id. elim (process-cases w p q a os) [
      | inl (_, e) ↦ rw e (stock_known id)
      | inr (_, e) ↦ rw e (λ h. later id bs seen (v.stock_received q id h))
    ];
    stock_unused = λ q id. elim (process-cases w p q a os) [
      | inl (_, e) ↦ rw e (stock_not_logged id)
      | inr (n, e) ↦ rw e (λ h l. elim (In-log id l) [
        | inl now ↦ v.apart p q id (λ same. n (sym same)) (k.taken id now) h
        | inr before ↦ v.stock_unused q id h before
      ])
    ];
    stock_inside = λ q. elim (process-cases w p q a os) [
      | inl (_, e) ↦ rw e (k.bound (v.stock_inside p))
      | inr (_, e) ↦ rw e (v.stock_inside q)
    ];
    apart = λ q r id n. elim (process-cases w p q a os) [
      | inl (same, e) ↦ elim (process-cases w p r a os) [
        | inl (same', _) ↦ absurd (n (same ∙ sym same'))
        | inr (m, f) ↦ rw (e, f) (λ h. stock_apart r id (λ g. m (sym g)) h)
      ]
      | inr (m, e) ↦ elim (process-cases w p r a os) [
        | inl (_, f) ↦ rw (e, f) (λ h h'. stock_apart q id (λ g. m (sym g)) h' h)
        | inr (_, f) ↦ rw (e, f) (v.apart q r id n)
      ]
    ];
  }

start-Inv : Inv [] fresh_world
start-Inv = record {
  received = λ id h. absurd h;
  distinct = tt;
  inside = λ id h. absurd h;
  stock_received = λ p id h. absurd (omega arith);
  stock_unused = λ p id h l. l;
  stock_inside = λ p. omega arith;
  apart = λ p q id n h h'. omega arith;
}

-- The codes that calls returned.
abbrev pub codes_of : List Outcome → List (Option (Result Text))
codes_of [] = []
codes_of (returned caller id code ∷ os) = code ∷ codes_of os
codes_of (rejected caller e ∷ os) = codes_of os

-- Every result is a code of 9 letters and digits.
abbrev pub GoodCodes : List (Option (Result Text)) → Type 0
GoodCodes =
    All λ c. (cs : Text) × (c ≡ some (ok cs)) × (length cs ≡ 9) × (all is_alphanumeric cs ≡ true)

Coded-append :
    (s : CodeScrambler) (os ps : List Outcome) → Coded s os → Coded s ps → Coded s (os ++ ps)
Coded-append s [] ps c d = d
Coded-append s (returned caller id code ∷ os) ps c d = (c.0, Coded-append s os ps c.1 d)
Coded-append s (rejected caller e ∷ os) ps c d = Coded-append s os ps c d

module _ (s : CodeScrambler) where
  code_from :
      (os : List Outcome) (c : Option (Result Text))
      → Coded s os
      → In c (codes_of os)
      → (id : ℕ) × In id (ids os) × (c ≡ encode s (pos id))
  code_from [] c k h = absurd h
  code_from (returned caller id code ∷ os) c k (inl e) = (id, inl refl, e ∙ k.0)
  code_from (returned caller id code ∷ os) c k (inr h) =
      let (i, l, e) = code_from os c k.1 h in (i, inr l, e)
  code_from (rejected caller e ∷ os) c k h = code_from os c k h

  codes-distinct :
      (os : List Outcome)
      → Coded s os
      → ((id : ℕ) → In id (ids os) → id < allocated_code_space)
      → AllDistinct (ids os)
      → AllDistinct (codes_of os) × GoodCodes (codes_of os)
  codes-distinct [] k b d = (tt, tt)
  codes-distinct (rejected caller e ∷ os) k b d = codes-distinct os k b d
  codes-distinct (returned caller id code ∷ os) k b d =
      let (cs, ran, _, size, chars) = encode_ok s id (b id (inl refl)) in
      let (rest, good) = codes-distinct os k.1 (λ i h. b i (inr h)) d.1 in
      (
        (
          λ h.
              let (other, l, e) = code_from os code k.1 h in
              d.0 (
                subst (λ i. In i (ids os))
                  (encode_injective s other id (b other (inr l)) (b id (inl refl)) (sym e ∙ k.0))
                  l),
          rest,
        ),
        ((cs, k.0 ∙ ran, size, chars), good),
      )

  log-Coded : (w : World) (p : ℕ) (e : Event) → Coded s w.log → Coded s (world_step s w (p, e)).log
  unfolding world_step
  log-Coded w p e k =
      Coded-append s (step s (w.process p) e).1 w.log (step-Coded s (w.process p) e) k

  world_step-Inv :
      (seen : List IdBlock) (w : World) (p : ℕ) (e : Event)
      → Inv seen w
      → ((id : ℕ) → InBlocks id (blocks e) → ¬ InBlocks id seen)
      → Inv (blocks e ++ seen) (world_step s w (p, e))
  unfolding world_step
  world_step-Inv seen w p e v fresh =
      let m = step-Move s (w.process p) e in
      put-Inv seen w p (step s (w.process p) e).0 (blocks e) (step s (w.process p) e).1 v fresh
        (Move-Keeps m)

  run-Inv :
      (seen : List IdBlock) (w : World) (es : List (ℕ × Event))
      → Inv seen w
      → Coded s w.log
      → NoOverlap seen es
      → AllDistinct (ids (run s w es).log)
        × ((id : ℕ) → In id (ids (run s w es).log) → id < allocated_code_space)
        × Coded s (run s w es).log
  unfolding run
  run-Inv seen w [] v k n = (v.distinct, v.inside, k)
  run-Inv seen w ((p, e) ∷ es) v k n =
      run-Inv (blocks e ++ seen) (world_step s w (p, e)) es (world_step-Inv seen w p e v n.0)
        (log-Coded w p e k) n.1

  -- When no block of the source overlaps an earlier one, the calls of all processes take pairwise
  -- distinct ids and return pairwise distinct codes, each of 9 letters and digits, whatever the
  -- interleaving of calls, answers, failures and resumed waits.
  pub run_codes_distinct :
      (es : List (ℕ × Event))
      → NoOverlap [] es
      → AllDistinct (ids (run s fresh_world es).log)
        × AllDistinct (codes_of (run s fresh_world es).log)
        × GoodCodes (codes_of (run s fresh_world es).log)
  run_codes_distinct es n =
      let (d, b, k) = run-Inv [] fresh_world es start-Inv tt n in
      let (c, g) = codes-distinct (run s fresh_world es).log k b d in (d, c, g)
