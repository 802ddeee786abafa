-- ===== src/Allocator/Tests.antt =====
-- The allocator on concrete histories of two processes, and the theorems at inputs that meet their
-- hypotheses.
use wrap_link.Prelude.{
  ℕ, ◌≡◌, refl, List, [], ◌∷◌, ok, throw, pos, integer, is_positive, nat_value, arith, inl, inr,
  AllDistinct,
}
use wrap_link.Scrambler.{CodeScrambler}
use wrap_link.Allocator.{
  IdBlock, Allocator, requested, Event, calls, answers, settles, resumes, run, world_step,
  fresh_world,
}
use wrap_link.Allocator.Moves.{ids}
use wrap_link.Allocator.Unique.{InBlocks, codes_of, GoodCodes, run_codes_distinct}
use wrap_link.Allocator.Progress.{steps, served, in_order, waiters_served}

abbrev scrambler : CodeScrambler
scrambler = record { round_keys = 0x01020304 ∷ 0x05060708 ∷ 0x090a0b0c ∷ 0x0d0e0f10 ∷ [] }

abbrev block : ℕ → ℕ → IdBlock
block start size = record { start = pos start; size = integer (pos size) }

-- Two processes, one source: an answer each, an error in between, and a call served at once.
abbrev history : List (ℕ × Event)
history =
    (0, calls 1)
    ∷ (1, calls 7)
    ∷ (0, answers (ok (block 0 2)))
    ∷ (1, answers (throw "down"))
    ∷ (1, settles)
    ∷ (1, resumes)
    ∷ (0, settles)
    ∷ (0, resumes)
    ∷ (1, calls 8)
    ∷ (1, answers (ok (block 2 2)))
    ∷ (1, settles)
    ∷ (1, resumes)
    ∷ (0, calls 2)
    ∷ []

ids-history : ids (run scrambler fresh_world history).log ≡ 1 ∷ 2 ∷ 0 ∷ []
unfolding run world_step is_positive nat_value
ids-history = refl

-- The ids 2 and 3 are not among 0 and 1.
second : (id : ℕ) → InBlocks id (block 2 2 ∷ []) → ¬ InBlocks id (block 0 2 ∷ [])
unfolding nat_value
second id (inl (l, h)) (inl (l', h')) = omega arith
second id (inl h) (inr s) = s
second id (inr h) s = h

run_codes_distinct_example :
    AllDistinct (ids (run scrambler fresh_world history).log)
    × AllDistinct (codes_of (run scrambler fresh_world history).log)
    × GoodCodes (codes_of (run scrambler fresh_world history).log)
run_codes_distinct_example = run_codes_distinct scrambler history (
  λ id b. absurd b,
  (
    λ id b. absurd b,
    (
      λ id b s. s,
      (
        λ id b. absurd b,
        (
          λ id b. absurd b,
          (
            λ id b. absurd b,
            (
              λ id b. absurd b,
              (
                λ id b. absurd b,
                (
                  λ id b. absurd b,
                  (second, (λ id b. absurd b, (λ id b. absurd b, (λ id b. absurd b, tt)))),
                ),
              ),
            ),
          ),
        ),
      ),
    ),
  ),
)

abbrev waiting : Allocator
waiting = record { next = 3; end = 3; reservation = requested; waiting = 4 ∷ 9 ∷ []; woken = [] }

waiters_served_example :
    (let r =
        steps scrambler waiting
          (calls 2 ∷ answers (ok (block 10 3)) ∷ settles ∷ resumes ∷ resumes ∷ resumes ∷ []) in
      (served r.1 ≡ (4, 10) ∷ (9, 11) ∷ (2, 12) ∷ []) × (r.0.woken ≡ []) × (r.0.waiting ≡ []))
unfolding is_positive nat_value in_order
waiters_served_example =
    waiters_served scrambler waiting (2 ∷ []) (block 10 3) refl (omega arith) refl refl refl
      (omega arith) (omega arith)
