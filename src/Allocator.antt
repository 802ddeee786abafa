-- ===== src/Allocator.antt =====
-- src/domain/code-allocator.ts: `BlockCodeAllocator`, in any number of processes over one source.
-- The awaits of `nextCode` cut it into events: a caller's entry, the source's answer, the `finally`
-- of the reservation, and the resumption of one waiter after another, in any interleaving with
-- other callers. The source of blocks is not modelled: its answers are part of the events.
pub mod Moves
pub mod Unique
pub mod Progress
mod Tests
use wrap_link.Prelude.{
  ℕ, ◌+◌, ◌<◌, ◌≤◌, Bool, true, false, ◌&&◌, List, [], ◌∷◌, ◌++◌, map, Option, Result, ok, throw,
  ◌>>=◌, ◌>>◌, guard, ℤ, pos, negsuc, String, ◌-◌, JsNumber, is_positive, nat_value, ltb, leb, ◌==◌,
  if◌then◌else◌, Text,
}
use wrap_link.Base62.{allocated_code_space}
use wrap_link.Scrambler.{CodeScrambler, encode}

pub record IdBlock : Type 0 where
  pub start : ℤ
  pub size : JsNumber

-- The field `reservation`: no promise, one that waits for the source, and one that has settled and
-- whose `finally` has not run.
pub data Reservation : Type 0 where
  idle requested : Reservation
  settled : Result (Unit {0}) → Reservation

-- `waiting` holds the callers that await the reservation, `woken` those whose await is over.
pub record Allocator : Type 0 where
  pub next : ℕ
  pub end : ℕ
  pub reservation : Reservation
  pub waiting : List ℕ
  pub woken : List (ℕ × Result (Unit {0}))

abbrev pub new_allocator : Allocator
new_allocator = record { next = 0; end = 0; reservation = idle; waiting = []; woken = [] }

-- What the call of a caller of `nextCode` comes to: the id that it took with the code for it, or an
-- error.
pub data Outcome : Type 0 where
  returned : ℕ → ℕ → Option (Result Text) → Outcome
  rejected : ℕ → String → Outcome

abbrev pub start_of : IdBlock → ℕ
start_of b = elim b.start [ pos n ↦ n | negsuc n ↦ 0 ]

abbrev pub is_natural : ℤ → Bool
is_natural (pos n) = true
is_natural (negsuc n) = false

-- `reserve` after the source's answer.
unfoldable pub take_block : Allocator → IdBlock → Result Allocator
take_block a b = do
  guard (is_natural b.start && is_positive b.size) "invalid ID block"
  let end = start_of b + nat_value b.size
  guard (leb end allocated_code_space) "short code space exhausted"
  ok (record a { next = start_of b; end = end })

abbrev request : Reservation → Reservation
request idle = requested
request r = r

module _ (s : CodeScrambler) where
  -- The loop test of `nextCode`: the synchronous end of the call, or a wait for the reservation.
  unfoldable pub enter : Allocator → ℕ → Allocator × List Outcome
  enter a caller =
      if ltb a.next a.end
      then (record a { next = a.next + 1 }, returned caller a.next (encode s (pos a.next)) ∷ [])
      else (
        record a { reservation = request a.reservation; waiting = a.waiting ++ caller ∷ [] },
        [],
      )

  resume_first : Allocator → List (ℕ × Result (Unit {0})) → Allocator × List Outcome
  unfolding enter
  resume_first a [] = (a, [])
  resume_first a ((caller, ok _) ∷ rest) = enter (record a { woken = rest }) caller
  resume_first a ((caller, throw e) ∷ rest) = (record a { woken = rest }, rejected caller e ∷ [])

  -- The next waiter goes on: it throws the reservation's error, or tests the loop again.
  unfoldable pub resume : Allocator → Allocator × List Outcome
  unfolding resume_first
  resume a = resume_first a a.woken

finish : Allocator → Result Allocator → Allocator
finish a (ok b) = record b { reservation = settled (ok tt) }
finish a (throw e) = record a { reservation = settled (throw e) }

answer_to : Reservation → Allocator → Result IdBlock → Allocator
unfolding take_block finish
answer_to requested a answer = finish a (answer >>= take_block a)
answer_to r a answer = a

-- The source's promise settles.
unfoldable pub answered : Allocator → Result IdBlock → Allocator
unfolding answer_to
answered a = answer_to a.reservation a

settle_from : Reservation → Allocator → Allocator
settle_from (settled r) a = record a {
  reservation = idle;
  waiting = [];
  woken = a.woken ++ map (λ caller. (caller, r)) a.waiting;
}
settle_from r a = a

-- The `finally` of the reservation, which releases those that await it.
unfoldable pub settle : Allocator → Allocator
unfolding settle_from
settle a = settle_from a.reservation a

unfoldable pub remaining_in_block : Allocator → ℕ
remaining_in_block a = a.end - a.next

pub data Event : Type 0 where
  calls : ℕ → Event
  answers : Result IdBlock → Event
  settles resumes : Event

unfoldable pub step : CodeScrambler → Allocator → Event → Allocator × List Outcome
unfolding enter resume answered settle
step s a (calls caller) = enter s a caller
step s a (answers r) = (answered a r, [])
step s a settles = (settle a, [])
step s a resumes = resume s a

-- The processes, and what their calls came to, the latest first.
pub record World : Type 0 where
  pub process : ℕ → Allocator
  pub log : List Outcome

unfoldable pub world_step : CodeScrambler → World → ℕ × Event → World
unfolding step
world_step s w (p, e) =
    let (a, outcomes) = step s (w.process p) e in
    record { process = λ q. if q == p then a else w.process q; log = outcomes ++ w.log }

unfoldable pub run : CodeScrambler → World → List (ℕ × Event) → World
run s w [] = w
run s w (e ∷ es) = run s (world_step s w e) es

abbrev pub fresh_world : World
fresh_world = record { process = λ p. new_allocator; log = [] }
