-- ===== src/MemoryStore/Laws.antt =====
-- The store stays within its limit, and what it returns for a code.
use wrap_link.Prelude.{
  ℕ, ◌+◌, ◌≤◌, ◌<◌, ◌≡◌, ◌≢◌, refl, sym, ap, ◌∙◌, ◌⊎◌, inl, inr, List, [], ◌∷◌, Option, none, some,
  Text, text_eq_iff, length, leb, if◌then◌else◌, AllDistinct, arith, Bool-cases, Option-cases,
  text_ne,
}
use wrap_link.Prelude.Maps.{
  Map, get, set, delete, keys, get-set, get-delete_ne, set-AllDistinct, delete-AllDistinct,
  length-set_new, length-set_old, length-delete-le, get-none-delete,
}
use wrap_link.Links.{Link, CreateLinkInput}
use wrap_link.MemoryStore.{
  MemoryLinkStore, evict_oldest, make_room, new_link, create_unless, create, has_expired,
  find_found, find, count_click, Call, creates, finds, clicks, step, run,
}

pub record IsValid (s : MemoryLinkStore) : Type 0 where
  pub positive : 0 < s.max_links
  pub bounded : length s.links ≤ s.max_links
  pub distinct : AllDistinct (keys s.links)

evict_oldest-rest : (code : Text) (l : Link) (m : Map Link) → evict_oldest ((code, l) ∷ m) ≡ m
unfolding evict_oldest delete
evict_oldest-rest code l m = rw ((text_eq_iff code code).1 refl) refl

-- After room is made there is room, and no key has come.
evict_oldest-length : (n : ℕ) (m : Map Link) → 0 < n → length m ≤ n → length (evict_oldest m) < n
unfolding evict_oldest
evict_oldest-length n [] p h = omega arith
evict_oldest-length n ((code, l) ∷ m) p h = rw (evict_oldest-rest code l m) h

evict_oldest-AllDistinct :
    (m : Map Link) → AllDistinct (keys m) → AllDistinct (keys (evict_oldest m))
unfolding evict_oldest
evict_oldest-AllDistinct [] d = tt
evict_oldest-AllDistinct ((code, l) ∷ m) d = rw (evict_oldest-rest code l m) d.1

get-evict_oldest : (k : Text) (m : Map Link) → get k m ≡ none → get k (evict_oldest m) ≡ none
unfolding evict_oldest get
get-evict_oldest k [] h = refl
get-evict_oldest k ((code, l) ∷ m) h = get-none-delete code k ((code, l) ∷ m) h

module _ (s : MemoryLinkStore) (v : IsValid s) where
  make_room-length : length (make_room s) < s.max_links
  unfolding make_room
  make_room-length = elim (Bool-cases (leb s.max_links (length s.links))) [
    | inl full ↦ rw (full, make_room) (evict_oldest-length s.max_links s.links v.positive v.bounded)
    | inr room ↦ rw (room, make_room) (ground arith)
  ]

  make_room-AllDistinct : AllDistinct (keys (make_room s))
  unfolding make_room
  make_room-AllDistinct = elim (Bool-cases (leb s.max_links (length s.links))) [
    | inl full ↦ rw (full, make_room) (evict_oldest-AllDistinct s.links v.distinct)
    | inr room ↦ rw (room, make_room) v.distinct
  ]

  get-make_room : (k : Text) → get k s.links ≡ none → get k (make_room s) ≡ none
  unfolding make_room
  get-make_room k h = elim (Bool-cases (leb s.max_links (length s.links))) [
    | inl full ↦ rw (full, make_room) (get-evict_oldest k s.links h)
    | inr room ↦ rw (room, make_room) h
  ]

  create-IsValid :
      (found : Option Link) (input : CreateLinkInput) (now : ℕ)
      → get input.code s.links ≡ found
      → IsValid (create_unless found input now s).0
  unfolding create_unless
  create-IsValid (some l) input now e = v
  create-IsValid none input now e = record {
    positive = v.positive;
    bounded = omega (
      arith,
      length-set_new input.code (new_link input now) (make_room s) (get-make_room input.code e),
      make_room-length,
    );
    distinct = set-AllDistinct input.code (new_link input now) (make_room s) make_room-AllDistinct;
  }

  delete-IsValid : (code : Text) → IsValid (record s { links = delete code s.links })
  delete-IsValid code = record {
    positive = v.positive;
    bounded = omega (arith, length-delete-le code s.links, v.bounded);
    distinct = delete-AllDistinct code s.links v.distinct;
  }

  find-IsValid :
      (found : Option Link) (code : Text) (now : ℕ) → IsValid (find_found found code now s).0
  unfolding find_found
  find-IsValid none code now = v
  find-IsValid (some l) code now = elim (Bool-cases (has_expired l.expires_at now)) [
    | inl old ↦ rw (old, find_found) (delete-IsValid code)
    | inr live ↦ rw (live, find_found) v
  ]

  click-IsValid :
      (found : Option Link) (code : Text)
      → get code s.links ≡ found
      → IsValid (count_click found code s)
  unfolding count_click
  click-IsValid none code e = v
  click-IsValid (some l) code e = record {
    positive = v.positive;
    bounded =
        omega
          (arith, length-set_old code (record l { clicks = l.clicks + 1 }) l s.links e, v.bounded);
    distinct = set-AllDistinct code _ s.links v.distinct;
  }

step-IsValid : (s : MemoryLinkStore) (c : Call) → IsValid s → IsValid (step s c)
unfolding step
step-IsValid s (creates input now) v = create-IsValid s v (get input.code s.links) input now refl
step-IsValid s (finds code now) v = find-IsValid s v (get code s.links) code now
step-IsValid s (clicks code) v = click-IsValid s v (get code s.links) code refl

-- Whatever calls are made, a store with a limit of at least one link holds no more links than its
-- limit, and no code twice.
pub run-IsValid : (s : MemoryLinkStore) (cs : List Call) → IsValid s → IsValid (run s cs)
unfolding run
run-IsValid s [] v = v
run-IsValid s (c ∷ cs) v = run-IsValid (step s c) cs (step-IsValid s c v)

-- The code whose link goes when the store is full.
pub oldest : Map Link → Option Text
oldest [] = none
oldest ((code, l) ∷ m) = some code

get-evict_other : (k : Text) (m : Map Link) → oldest m ≢ some k → get k (evict_oldest m) ≡ get k m
unfolding evict_oldest oldest
get-evict_other k [] h = refl
get-evict_other k ((code, l) ∷ m) h =
    get-delete_ne code k ((code, l) ∷ m) (text_ne code k λ e. h (ap some e))

-- What `find` returns, by the entry of the map.
visible : Option Link → ℕ → Option Link
visible none now = none
visible (some l) now = if has_expired l.expires_at now then none else some l

find_found-visible :
    (found : Option Link) (code : Text) (now : ℕ) (s : MemoryLinkStore)
    → (find_found found code now s).1 ≡ visible found now
unfolding find_found visible
find_found-visible none code now s = refl
find_found-visible (some l) code now s = elim (Bool-cases (has_expired l.expires_at now)) [
  | inl old ↦ rw (old, find_found, visible) refl
  | inr live ↦ rw (live, find_found, visible) refl
]

find-visible :
    (code : Text) (now : ℕ) (s : MemoryLinkStore)
    → (find code now s).1 ≡ visible (get code s.links) now
unfolding find
find-visible code now s = find_found-visible (get code s.links) code now s

module _ (input : CreateLinkInput) (now : ℕ) (s : MemoryLinkStore) where
  get-create :
      get input.code s.links ≡ none
      → (create input now s).0.links ≡ set input.code (new_link input now) (make_room s)
  unfolding create create_unless
  get-create e = ap (λ o. (create_unless o input now s).0.links) e

  get-make_room_other :
      (k : Text)
      → (length s.links < s.max_links) ⊎ (oldest s.links ≢ some k)
      → get k (make_room s) ≡ get k s.links
  unfolding make_room
  get-make_room_other k keeps = elim (Bool-cases (leb s.max_links (length s.links))) [
    | inl full ↦
        rw (full, make_room)
          (elim keeps [
            | inl room ↦ absurd (ground arith)
            | inr other ↦ get-evict_other k s.links other
          ])
    | inr room ↦ rw (room, make_room) refl
  ]

  found_new :
      get input.code s.links ≡ none
      → get input.code (set input.code (new_link input now) (make_room s))
        ≡ some (new_link input now)
  found_new e =
      get-set input.code input.code (new_link input now) (make_room s)
      ∙ ap (λ b. if b then some (new_link input now) else get input.code (make_room s))
          ((text_eq_iff input.code input.code).1 refl)

  found_other :
      (k : Text)
      → k ≢ input.code
      → (length s.links < s.max_links) ⊎ (oldest s.links ≢ some k)
      → get k (set input.code (new_link input now) (make_room s)) ≡ get k s.links
  found_other k n keeps =
      get-set input.code k (new_link input now) (make_room s)
      ∙ ap (λ b. if b then some (new_link input now) else get k (make_room s))
          (text_ne input.code k (λ e. n (sym e)))
      ∙ get-make_room_other k keeps

  -- `create` with a code that is in the store, expired or not, returns null and changes nothing.
  -- With a code that is not, it returns the new link with no clicks; a later `find` of the code
  -- returns that link until it expires; and every other code but the oldest of a full store finds
  -- what it found before.
  pub create_lem :
      (later : ℕ) (other : Text)
      → other ≢ input.code
      → (length s.links < s.max_links) ⊎ (oldest s.links ≢ some other)
      → (create input now s ≡ (s, none)) × ((l : Link) × (get input.code s.links ≡ some l))
        ⊎ ((create input now s).1 ≡ some (new_link input now))
          × (get input.code s.links ≡ none)
          × ((find input.code later (create input now s).0).1
              ≡ (if has_expired input.expires_at later then none else some (new_link input now)))
          × ((find other later (create input now s).0).1 ≡ (find other later s).1)
  unfolding create create_unless visible
  create_lem later other n keeps = elim (Option-cases (get input.code s.links)) [
    | inr (l, e) ↦ inl (ap (λ o. create_unless o input now s) e, (l, e))
    | inl e ↦ inr (
      ap (λ o. (create_unless o input now s).1) e,
      e,
      find-visible input.code later (create input now s).0
          ∙ ap (λ m. visible (get input.code m) later) (get-create e)
          ∙ ap (λ o. visible o later) (found_new e),
      find-visible other later (create input now s).0
          ∙ ap (λ m. visible (get other m) later) (get-create e)
          ∙ ap (λ o. visible o later) (found_other other n keeps)
          ∙ sym (find-visible other later s),
    )
  ]
