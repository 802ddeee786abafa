-- ===== src/SyncWorker/Lanes/Tests.antt =====
-- Two lanes over three shards, whose tasks settle out of order, and the theorems there.
use wrap_link.Prelude.{
  Option, none, some, ℕ, ◌+◌, ◌≤◌, min, ◌≡◌, refl, ◌⊎◌, List, [], ◌∷◌, length, arith,
}
use wrap_link.SyncWorker.Lanes.{Lanes, begin_visits, settle, run}
use wrap_link.SyncWorker.Lanes.Visits.{occurrences, indices, visits_bounded, visits_complete}

abbrev events : List (ℕ × Option ℕ)
events = (1, some 10) ∷ (1, some 11) ∷ (0, some 12) ∷ (2, some 13) ∷ []

abbrev last : Lanes ℕ
last = run ℕ 3 events (begin_visits ℕ 2 3)

begun : (begin_visits ℕ 2 3).awaited ≡ 1 ∷ 0 ∷ []
unfolding begin_visits
begun = refl

ended : last.awaited ≡ []
unfolding run begin_visits settle
ended = refl

sound : last.failures ≡ []
unfolding run begin_visits settle
sound = refl

visits_complete_example : (occurrences 1 (indices ℕ last) ≡ 1) × (length last.results ≡ 3)
visits_complete_example = visits_complete ℕ 2 3 events 1 (omega arith) ended sound (omega arith)

-- One of the two lanes fails, and the other visits the rest.
abbrev broken : List (ℕ × Option ℕ)
broken = (1, none) ∷ (0, some 12) ∷ (2, some 13) ∷ []

one_failed : (run ℕ 3 broken (begin_visits ℕ 2 3)).failures ≡ 1 ∷ []
unfolding run begin_visits settle
one_failed = refl

visits_bounded_example :
    (let s = run ℕ 3 broken (begin_visits ℕ 2 3) in
      (length s.awaited + length s.failures ≤ min 2 3)
      × ((s.next ≡ 3) ⊎ (length s.awaited + length s.failures ≡ min 2 3))
      × (length s.awaited + (length s.results + length s.failures) ≡ s.next))
visits_bounded_example = visits_bounded ℕ 2 3 broken
