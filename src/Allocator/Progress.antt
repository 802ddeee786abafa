-- ===== src/Allocator/Progress.antt =====
-- Callers that find no id get the first ids of the next block, in the order in which they came.
use mathlib.Core.List.{append_assoc, append-nil}
use wrap_link.Prelude.{
  Bool, false, ltb, if◌then◌else◌, sym, ℕ, ◌+◌, ◌<◌, ◌≤◌, ◌≡◌, refl, ap, ◌∙◌, true, List, [], ◌∷◌,
  ◌++◌, map, Result, ok, pos, is_positive, nat_value, lt→ltb, le→leb, length, replicate, arith,
}
use wrap_link.Base62.{allocated_code_space}
use wrap_link.Scrambler.{CodeScrambler, encode}
use wrap_link.Allocator.{
  IdBlock, idle, requested, Allocator, Outcome, returned, start_of, is_natural, take_block, enter,
  rejected, request, resume_first, finish, answer_to, Event, calls, answers, settles, resumes, step,
  answered, settle,
}

-- Events in turn, with their outcomes in the order in which they come about.
pub steps : CodeScrambler → Allocator → List Event → Allocator × List Outcome
steps s a [] = (a, [])
steps s a (e ∷ es) = let (b, os) = step s a e in let (c, ps) = steps s b es in (c, os ++ ps)

-- Who was served with which id, in turn.
unfoldable pub served : List Outcome → List (ℕ × ℕ)
served [] = []
served (returned caller id code ∷ os) = (caller, id) ∷ served os
served (rejected caller e ∷ os) = served os

-- The callers, with ids from the first on.
unfoldable pub in_order : List ℕ → ℕ → List (ℕ × ℕ)
in_order [] first = []
in_order (c ∷ cs) first = (c, first) ∷ in_order cs (first + 1)

abbrev woken_by : List ℕ → List (ℕ × Result (Unit {0}))
woken_by = map λ caller. (caller, ok tt)

not_below : (next end : ℕ) → end ≤ next → ltb next end ≡ false
not_below next end h = ground arith

module _ (s : CodeScrambler) where
  -- `enter`, by whether an id is left.
  abbrev kept_if : Bool → ℕ → Allocator → Allocator × List Outcome
  kept_if b caller a =
      if b
      then (record a { next = a.next + 1 }, returned caller a.next (encode s (pos a.next)) ∷ [])
      else (
        record a { reservation = request a.reservation; waiting = a.waiting ++ caller ∷ [] },
        [],
      )

  resume_one :
      (c : ℕ) (cs : List ℕ) (a : Allocator)
      → a.woken ≡ woken_by (c ∷ cs)
      → a.next < a.end
      → step s a resumes ≡ (
        record a { next = a.next + 1; woken = woken_by cs },
        returned c a.next (encode s (pos a.next)) ∷ [],
      )
  unfolding step
  resume_one c cs a e h = ap (resume_first s a) e ∙ rw (lt→ltb a.next a.end h, enter) refl

  resume_all :
      (cs : List ℕ) (a : Allocator)
      → a.woken ≡ woken_by cs
      → a.next + length cs ≤ a.end
      → (served (steps s a (replicate (length cs) resumes)).1 ≡ in_order cs a.next)
        × ((steps s a (replicate (length cs) resumes)).0.woken ≡ [])
        × ((steps s a (replicate (length cs) resumes)).0.waiting ≡ a.waiting)
  unfolding steps served in_order
  resume_all [] a e h = (refl, e, refl)
  resume_all (c ∷ cs) a e h =
      let b : Allocator = record a { next = a.next + 1; woken = woken_by cs } in
      let (given, none_left, waits) = resume_all cs b refl (omega arith) in
      rw (resume_one c cs a e (omega arith), steps) (ap (◌∷◌ (c, a.next)) given, none_left, waits)

  block_taken :
      (a : Allocator) (b : IdBlock)
      → is_natural b.start ≡ true
      → is_positive b.size ≡ true
      → start_of b + nat_value b.size ≤ allocated_code_space
      → take_block a b ≡ ok (record a { next = start_of b; end = start_of b + nat_value b.size })
  unfolding take_block
  block_taken a b n z h = rw (n, z, le→leb _ _ h, take_block) refl

  abbrev stocked : Allocator → IdBlock → Allocator
  stocked a b = record a {
    next = start_of b;
    end = start_of b + nat_value b.size;
    reservation = idle;
    waiting = [];
    woken = woken_by a.waiting;
  }

  released :
      (a : Allocator) (b : IdBlock)
      → a.reservation ≡ requested
      → a.woken ≡ []
      → take_block a b ≡ ok (record a { next = start_of b; end = start_of b + nat_value b.size })
      → settle (answered a (ok b)) ≡ stocked a b
  unfolding settle answered
  released a b req before taken =
      ap (λ r. settle (answer_to r a (ok b))) req
      ∙ ap (λ t. settle (finish a t)) taken
      ∙ ap (λ w. record (stocked a b) { woken = w ++ woken_by a.waiting }) before

  -- The calls that find no id go to the end of those that wait.
  calls_first :
      (cs : List ℕ) (a : Allocator) (events : List Event)
      → a.end ≤ a.next
      → a.reservation ≡ requested
      → steps s a (map calls cs ++ events) ≡ steps s (record a { waiting = a.waiting ++ cs }) events
  unfolding steps step enter
  calls_first [] a events empty req =
      ap (λ w. steps s (record a { waiting = w }) events) (sym (append-nil a.waiting))
  calls_first (c ∷ cs) a events empty req =
      ap
        (λ b.
          let (b', os) = kept_if b c a in
          let (d, ps) = steps s b' (map calls cs ++ events) in (d, os ++ ps))
        (not_below a.next a.end empty)
      ∙ ap
          (λ r.
            steps s (record a { reservation = request r; waiting = a.waiting ++ c ∷ [] })
              (map calls cs ++ events))
          req
      ∙ calls_first cs (record a { reservation = requested; waiting = a.waiting ++ c ∷ [] }) events
          empty refl
      ∙ ap (λ w. steps s (record a { reservation = requested; waiting = w }) events)
          (append_assoc a.waiting (c ∷ []) cs)
      ∙ ap (λ q. steps s (record a { reservation = q; waiting = a.waiting ++ c ∷ cs }) events)
          (sym req)

  -- While a block is requested, no id is left and no earlier waiter is still to resume, calls come;
  -- then the source answers with a valid block that is large enough for all who wait; then the
  -- reservation settles and each of them resumes. Then they have taken the first ids of the block,
  -- those who waited before first, and then the callers in the order of their calls, and nobody waits.
  pub waiters_served :
      (a : Allocator) (callers : List ℕ) (b : IdBlock)
      → a.reservation ≡ requested
      → a.end ≤ a.next
      → a.woken ≡ []
      → is_natural b.start ≡ true
      → is_positive b.size ≡ true
      → start_of b + nat_value b.size ≤ allocated_code_space
      → length (a.waiting ++ callers) ≤ nat_value b.size
      → (let r = steps s a (
            map calls callers
            ++ (answers (ok b) ∷ settles ∷ replicate (length (a.waiting ++ callers)) resumes)) in
          (served r.1 ≡ in_order (a.waiting ++ callers) (start_of b))
          × (r.0.woken ≡ [])
          × (r.0.waiting ≡ []))
  unfolding steps step
  waiters_served a callers b req empty idle_before n z h room =
      let all = a.waiting ++ callers in
      let w : Allocator = record a { waiting = all } in
      let e = released w b req idle_before (block_taken w b n z h) in
      let r = resume_all all (stocked w b) refl (omega arith) in
      rw
        (calls_first callers a (answers (ok b) ∷ settles ∷ replicate (length all) resumes) empty
          req)
        (rw (e, steps) r)
