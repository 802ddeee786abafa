-- ===== src/Allocator/Moves.antt =====
-- What one event does to the ids that an allocator holds in stock.
use wrap_link.Prelude.{
  ℕ, ◌+◌, ◌<◌, ◌≤◌, ◌≡◌, refl, List, [], ◌∷◌, Result, ok, throw, nat_value, is_positive, ◌&&◌, ap,
  ltb, leb, arith, leb→le, ltb→lt, pos, Bool-cases, inl, inr,
}
use wrap_link.Base62.{allocated_code_space}
use wrap_link.Scrambler.{CodeScrambler, encode}
use wrap_link.Allocator.{
  IdBlock, Reservation, requested, settled, Allocator, Outcome, returned, rejected, start_of,
  is_natural, take_block, enter, resume_first, finish, answer_to, settle_from, Event, calls,
  answers, settles, resumes, step,
}

-- The ids that calls took.
abbrev pub ids : List Outcome → List ℕ
ids [] = []
ids (returned caller id code ∷ os) = id ∷ ids os
ids (rejected caller e ∷ os) = ids os

-- The block that the event brings.
abbrev pub blocks : Event → List IdBlock
blocks (answers (ok b)) = b ∷ []
blocks _ = []

-- Each outcome with an id carries the code of that id.
abbrev pub Coded : CodeScrambler → List Outcome → Type 0
Coded s [] = Unit
Coded s (returned caller id code ∷ os) = (code ≡ encode s (pos id)) × Coded s os
Coded s (rejected caller e ∷ os) = Coded s os

pub data Move (a a' : Allocator) (bs : List IdBlock) (os : List Outcome) : Type 0 where
  keep : a'.next ≡ a.next → a'.end ≡ a.end → ids os ≡ [] → Move a a' bs os
  take :
      a.next < a.end
      → a'.next ≡ a.next + 1
      → a'.end ≡ a.end
      → ids os ≡ a.next ∷ []
      → Move a a' bs os
  refill :
      (b : IdBlock)
      → bs ≡ b ∷ []
      → a'.next ≡ start_of b
      → a'.end ≡ start_of b + nat_value b.size
      → a'.end ≤ allocated_code_space
      → ids os ≡ []
      → Move a a' bs os

module _ (s : CodeScrambler) where
  enter-Move :
      (a b : Allocator) (caller : ℕ)
      → b.next ≡ a.next
      → b.end ≡ a.end
      → Move a (enter s b caller).0 [] (enter s b caller).1
  unfolding enter
  enter-Move a b caller e f = elim (Bool-cases (ltb b.next b.end)) [
    | inl has ↦
        rw (has, enter) (take (omega (arith, ltb→lt _ _ has)) (omega arith) f (ap (λ n. n ∷ []) e))
    | inr empty ↦ rw (empty, enter) (keep e f refl)
  ]

  enter-Coded : (a : Allocator) (caller : ℕ) → Coded s (enter s a caller).1
  unfolding enter
  enter-Coded a caller = elim (Bool-cases (ltb a.next a.end)) [
    | inl has ↦ rw (has, enter) (refl, tt)
    | inr empty ↦ rw (empty, enter) tt
  ]

  resume_first-Move :
      (a : Allocator) (w : List (ℕ × Result (Unit {0})))
      → Move a (resume_first s a w).0 [] (resume_first s a w).1
  unfolding resume_first
  resume_first-Move a [] = keep refl refl refl
  resume_first-Move a ((c, ok u) ∷ rest) = enter-Move a (record a { woken = rest }) c refl refl
  resume_first-Move a ((c, throw e) ∷ rest) = keep refl refl refl

  resume_first-Coded :
      (a : Allocator) (w : List (ℕ × Result (Unit {0}))) → Coded s (resume_first s a w).1
  unfolding resume_first
  resume_first-Coded a [] = tt
  resume_first-Coded a ((c, ok u) ∷ rest) = enter-Coded (record a { woken = rest }) c
  resume_first-Coded a ((c, throw e) ∷ rest) = tt

take_block-Move : (a : Allocator) (b : IdBlock) → Move a (finish a (take_block a b)) (b ∷ []) []
unfolding take_block finish
take_block-Move a b = elim (Bool-cases (is_natural b.start && is_positive b.size)) [
  | inl valid ↦ elim (Bool-cases (leb (start_of b + nat_value b.size) allocated_code_space)) [
    | inl fits ↦
        rw (valid, take_block, fits, finish) (refill b refl refl refl (leb→le _ _ fits) refl)
    | inr over ↦ rw (valid, take_block, over, finish) (keep refl refl refl)
  ]
  | inr invalid ↦ rw (invalid, take_block, finish) (keep refl refl refl)
]

answer_to-Move :
    (r : Reservation) (a : Allocator) (b : Result IdBlock)
    → Move a (answer_to r a b) (blocks (answers b)) []
unfolding answer_to
answer_to-Move requested a (throw e) = keep refl refl refl
answer_to-Move requested a (ok b) = take_block-Move a b
answer_to-Move _ a b = keep refl refl refl

settle_from-Move : (r : Reservation) (a : Allocator) → Move a (settle_from r a) [] []
unfolding settle_from
settle_from-Move (settled r) a = keep refl refl refl
settle_from-Move _ a = keep refl refl refl

-- Every event leaves the stock, takes the first id of it, or puts one received block in its place.
pub step-Move :
    (s : CodeScrambler) (a : Allocator) (e : Event)
    → Move a (step s a e).0 (blocks e) (step s a e).1
unfolding step
step-Move s a (calls caller) = enter-Move s a a caller refl refl
step-Move s a (answers r) = answer_to-Move a.reservation a r
step-Move s a settles = settle_from-Move a.reservation a
step-Move s a resumes = resume_first-Move s a a.woken

pub step-Coded : (s : CodeScrambler) (a : Allocator) (e : Event) → Coded s (step s a e).1
unfolding step
step-Coded s a (calls caller) = enter-Coded s a caller
step-Coded s a (answers r) = tt
step-Coded s a settles = tt
step-Coded s a resumes = resume_first-Coded s a a.woken
