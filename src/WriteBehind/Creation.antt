-- ===== src/WriteBehind/Creation.antt =====
-- What `create` does on every branch.
use wrap_link.Prelude.{
  ℕ, suc, ◌<◌, ◌≤◌, ◌≡◌, ◌≢◌, ◌⊎◌, refl, sym, ap, subst, ◌∙◌, inl, inr, true, [], ◌∷◌, ◌++◌, Option,
  none, some, Text, text_eq_refl, length, length-append, Result, ok, leb, leb→le, ◌==◌, ==_iff,
  if◌then◌else◌, arith, Bool-cases, Option-cases,
}
use wrap_link.Prelude.Maps.{Map, get, get-set}
use wrap_link.Keys.{shard_of}
use wrap_link.Links.{LinkStore, Link, CreateLinkInput}
use wrap_link.PendingLinks.{Field, serialize_pending_link}
use wrap_link.SyncWorker.{Shard, CacheEntry}
use wrap_link.WriteBehind.{
  Enqueued, accepted, exists, full, EnqueueArguments, entry_of, accept, enqueue_absent,
  enqueue_link, replies, World, put_shard, delegate, is_pending, create_custom, pending_of,
  arguments_of, link_of, answer_outcome, enqueued, create_generated,
}

-- The three outcomes of the script.
pub enqueue_cases :
    (a : EnqueueArguments) (s : Shard)
    → ((e : CacheEntry) × (get a.code s.cache ≡ some e) × (enqueue_link a s ≡ (s, exists)))
      ⊎ ((get a.code s.cache ≡ none)
            × (a.max_pending ≤ length s.queue)
            × (enqueue_link a s ≡ (s, full))
          ⊎ (get a.code s.cache ≡ none)
            × (length s.queue < a.max_pending)
            × ((s' : Shard) × (enqueue_link a s ≡ (s', accepted))
                × (s'.queue ≡ s.queue ++ a.entry ∷ [])
                × ((e : CacheEntry) × (get a.code s'.cache ≡ some e) × (e.pending ≡ true))))
unfolding enqueue_link enqueue_absent
enqueue_cases a s = elim (Option-cases (get a.code s.cache)) [
  | inr (e, found) ↦ inl (e, found, ap (λ o. enqueue_absent o a s) found)
  | inl absent ↦ elim (Bool-cases (leb a.max_pending (length s.queue))) [
    | inl no_room ↦
        inr (
          inl (absent, leb→le _ _ no_room, ap (λ o. enqueue_absent o a s) absent ∙ rw no_room refl))
    | inr room ↦ inr (
        inr (
          absent,
          ground arith,
          (
            accept a s,
            ap (λ o. enqueue_absent o a s) absent ∙ rw room refl,
            refl,
            (
              entry_of a,
              get-set a.code a.code (entry_of a) s.cache ∙ rw (text_eq_refl a.code) refl,
              refl,
            ),
          ),
        ))
  ]
]

module _ (synchronous : LinkStore) where
  open synchronous use {State, create_link}

  same_shard :
      (n : ℕ) (s : Shard) (w : World synchronous) → (put_shard synchronous n s w).redis n ≡ s
  same_shard n s w = let e : (n == n) ≡ true = (==_iff n n).1 refl in rw e refl

  other_shard :
      (n m : ℕ) (s : Shard) (w : World synchronous)
      → m ≢ n
      → (put_shard synchronous n s w).redis m ≡ w.redis m
  other_shard n m s w h = elim (Bool-cases (m == n)) [
    | inl same ↦ absurd (h ((==_iff m n).0 same))
    | inr other ↦ rw other refl
  ]

  module _ (max_pending : ℕ) (json_stringify : Map Field → Text) (to_iso : ℕ → Text) where
    -- The code was in Redis: nothing changes, and the caller gets null.
    abbrev pub Existed :
        CreateLinkInput → World synchronous → World synchronous × Result (Option Link) → Type 0
    Existed input w r =
        let n = shard_of input.code in
        ((e : CacheEntry) × (get input.code (w.redis n).cache ≡ some e))
        × (r.1 ≡ ok none)
        × (r.0.store ≡ w.store)
        × (r.0.redis n ≡ w.redis n)

    -- The queue was full: Redis does not change, and the synchronous store answers.
    abbrev pub Delegated :
        CreateLinkInput → World synchronous → World synchronous × Result (Option Link) → Type 0
    Delegated input w r =
        let n = shard_of input.code in
        (get input.code (w.redis n).cache ≡ none)
        × (max_pending ≤ length (w.redis n).queue)
        × (r.1 ≡ (create_link input w.store).1)
        × (r.0.store ≡ (create_link input w.store).0)
        × (r.0.redis n ≡ w.redis n)

    -- The link is returned, stands last in the queue, and has a pending hash.
    abbrev pub Queued :
        CreateLinkInput → ℕ → World synchronous → World synchronous × Result (Option Link) → Type 0
    Queued input now w r =
        let n = shard_of input.code in
        (get input.code (w.redis n).cache ≡ none)
        × (r.1 ≡ ok (some (link_of synchronous max_pending json_stringify to_iso input now)))
        × (r.0.store ≡ w.store)
        × ((r.0.redis n).queue
            ≡ (w.redis n).queue
              ++ serialize_pending_link to_iso json_stringify
                  (pending_of synchronous max_pending json_stringify to_iso input now)
                ∷ [])
        × (length (r.0.redis n).queue ≤ max_pending)
        × ((e : CacheEntry) × (get input.code (r.0.redis n).cache ≡ some e) × (e.pending ≡ true))

    -- With Redis ready and answering, a generated code has one of three outcomes, and the shards of
    -- other codes stay as they are. If the code is in Redis, the caller gets null and nothing
    -- changes. If it is not and the queue is at its limit, the synchronous store creates the link
    -- and its answer is returned. Otherwise the link is returned, its text is last in the queue of
    -- its shard, which is within its limit, and its hash is pending; the synchronous store is not
    -- called.
    pub create_generated_lem :
        (input : CreateLinkInput) (now : ℕ) (w : World synchronous) (other : ℕ)
        → other ≢ shard_of input.code
        → let r =
            create_generated synchronous max_pending json_stringify to_iso true replies input now
              w in
          (r.0.redis other ≡ w.redis other)
          × (Existed input w r ⊎ (Delegated input w r ⊎ Queued input now w r))
    unfolding create_generated enqueued answer_outcome delegate arguments_of
    create_generated_lem input now w other h =
        let n = shard_of input.code in
        let a = arguments_of synchronous max_pending json_stringify to_iso input now in
        let s = w.redis n in
        let outcome = λ (p : Shard × Enqueued).
          answer_outcome synchronous max_pending json_stringify to_iso p.1 input now
            (put_shard synchronous n p.0 w) in
        let after = λ (p : Shard × Enqueued).
          ((outcome p).0.redis other ≡ w.redis other)
          × (Existed input w (outcome p)
              ⊎ (Delegated input w (outcome p) ⊎ Queued input now w (outcome p))) in
        elim (enqueue_cases a s) [
          | inl (e, found, ran) ↦
              subst after (sym ran)
                (other_shard n other s w h, inl ((e, found), refl, refl, same_shard n s w))
          | inr (inl (absent, no_room, ran)) ↦
              subst after (sym ran) (
                other_shard n other s w h,
                inr (inl (absent, no_room, refl, refl, same_shard n s w)),
              )
          | inr (inr (absent, room, (s', ran, queue, (e, found, pending)))) ↦
              subst after (sym ran) (
                other_shard n other s' w h,
                inr (
                    inr (
                      absent,
                      refl,
                      refl,
                      ap (λ t. t.queue) (same_shard n s' w) ∙ queue,
                      subst (λ t. length t.queue ≤ max_pending) (sym (same_shard n s' w))
                          (omega (
                            arith,
                            ap (λ q. length q) queue,
                            length-append s.queue (a.entry ∷ []),
                            room,
                          )),
                      (e, ap (λ t. get input.code t.cache) (same_shard n s' w) ∙ found, pending),
                    )),
              )
        ]

    pending_null :
        (alias : CreateLinkInput) (e : CacheEntry) (w : World synchronous)
        → e.pending ≡ true
        → ◌≡◌ {A = World synchronous × Result (Option Link)}
            (if is_pending synchronous (some e) then (w, ok none) else delegate synchronous alias w)
            (w, ok none)
    unfolding is_pending
    pending_null alias e w h = rw h refl

    -- When Redis holds neither the code nor a full queue, so that a generated code is queued, a
    -- custom alias of the same code that comes next gets null and changes nothing.
    pub create_custom-create_generated :
        (input alias : CreateLinkInput) (now : ℕ) (w : World synchronous)
        → alias.code ≡ input.code
        → get input.code (w.redis (shard_of input.code)).cache ≡ none
        → length (w.redis (shard_of input.code)).queue < max_pending
        → let r =
            create_generated synchronous max_pending json_stringify to_iso true replies input now
              w in
          create_custom synchronous true replies alias r.0 ≡ (r.0, ok none)
    unfolding create_custom
    create_custom-create_generated input alias now w same absent room =
        let r =
          create_generated synchronous max_pending json_stringify to_iso true replies input now w in
        let code_at = λ (c : Text). get c (r.0.redis (shard_of c)).cache in
        let (_, cases) =
          create_generated_lem input now w (suc (shard_of input.code)) (λ e. omega (arith, e)) in
        elim cases [
          | inl ((e, found), _, _, _) ↦ absurd (none-ne-some (sym absent ∙ found))
          | inr (inl (_, no_room, _, _, _)) ↦ absurd (omega arith)
          | inr (inr (_, _, _, _, _, (e, found, pending))) ↦
              ap
                (λ o.
                  if is_pending synchronous o
                  then (r.0, ok none)
                  else delegate synchronous alias r.0)
                (ap code_at same ∙ found)
              ∙ pending_null alias e r.0 pending
        ]
      where
        none-ne-some : {e : CacheEntry} → ◌≡◌ none (some e) → ⊥
        none-ne-some e = cc
