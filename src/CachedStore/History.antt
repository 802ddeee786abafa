-- ===== src/CachedStore/History.antt =====
-- The cached store in use: its calls, hashes that expire or are evicted, calls of Redis that fail,
-- and what time and other processes do to the source, in any order.
use wrap_link.CachedStore.{Cache, put, Call, Formats, CachedStore, create, find, record_click}
use wrap_link.CachedStore.Coherence.{DatesRoundTrip, forget-IsCoherent}
use wrap_link.CachedStore.Calls.{
  Buffer, BufferKeeps, Coherent, moved-Coherent, create-Coherent, find-Answered,
  record_click-Coherent,
}
use wrap_link.Prelude.{ℕ, ◌≡◌, List, Option, none, Text, ok}
use wrap_link.Links.{LinkStore, Link, CreateLinkInput}
use wrap_link.Links.Durable.{SameAnswer, Keeps, DurableStore}

module _ (source : LinkStore) (durable : DurableStore source) (formats : Formats)
    (dates : DatesRoundTrip formats) (ttl_seconds : ℕ) (buffer : Buffer source)
    (buffer_keeps : BufferKeeps source durable formats dates ttl_seconds buffer buffer) where
  open durable use {time, shown}

  abbrev Store : Type 0
  Store = CachedStore source time formats ttl_seconds buffer

  pub data Step : Store → Store → Type 0 where
    creates :
        (input : CreateLinkInput) (w : Store)
        → Step w (create source time formats ttl_seconds buffer input w).0
    finds :
        (code : Text) (w : Store) → Step w (find source time formats ttl_seconds buffer code w).0
    clicks :
        (code : Text) (w : Store)
        → Step w (record_click source time formats ttl_seconds buffer code w).0
    -- a hash expires or is evicted
    forgets : (code : Text) (w : Store) → Step w (record w { cache = put code none w.cache })
    -- time goes on, and other processes use the source
    goes_on :
        (s : LinkStore.State source) (w : Store)
        → Keeps time shown w.state s
        → Step w (record w { state = s })
    -- Redis comes and goes
    meets : (calls : List Call) (w : Store) → Step w (record w { calls = calls })

  pub data Reach (start : Store) : Store → Type 0 where
    here : Reach start start
    next : {v w : Store} → Reach start v → Step v w → Reach start w

  -- A cache with no hash in it.
  abbrev pub IsEmpty : Cache → Type 0
  IsEmpty cache = (code : Text) → cache code ≡ none

  Step-Coherent :
      {v w : Store}
      → Step v w
      → Coherent source durable formats dates ttl_seconds buffer v
      → Coherent source durable formats dates ttl_seconds buffer w
  Step-Coherent (creates input w) c =
      create-Coherent source durable formats dates ttl_seconds buffer input w c
  Step-Coherent (finds code w) c =
      (find-Answered source durable formats dates ttl_seconds buffer code w c).0
  Step-Coherent (clicks code w) c =
      record_click-Coherent source durable formats dates ttl_seconds buffer buffer_keeps code w c
  Step-Coherent (forgets code w) c =
      forget-IsCoherent source durable formats dates w.cache w.state c code
  Step-Coherent (goes_on s w keeps) c =
      moved-Coherent source durable formats dates ttl_seconds buffer w s keeps c
  Step-Coherent (meets calls w) c = record { agrees = c.agrees }

  Reach-Coherent :
      {start w : Store}
      → Coherent source durable formats dates ttl_seconds buffer start
      → Reach start w
      → Coherent source durable formats dates ttl_seconds buffer w
  Reach-Coherent c here = c
  Reach-Coherent c (next r s) = Step-Coherent s (Reach-Coherent c r)

  empty-Coherent :
      (w : Store) → IsEmpty w.cache → Coherent source durable formats dates ttl_seconds buffer w
  empty-Coherent w empty = record { agrees = λ code e id found read live. cc (empty code) }

  -- Whatever calls of a cached store were made since its cache was empty, whichever calls of Redis
  -- failed or hashes were lost, and whatever time and other processes did to the durable source: a
  -- `find` that returns gives what the source shows for the code at that time: no link where it shows
  -- none, and else the link that it shows, with the same target and dates, in which only the count of
  -- clicks may differ.
  pub find_refines_source :
      (start w : Store) (code : Text) (found : Option Link)
      → IsEmpty start.cache
      → Reach start w
      → (find source time formats ttl_seconds buffer code w).1 ≡ ok found
      → SameAnswer found (shown code w.state)
  find_refines_source start w code found empty reach e =
      (find-Answered source durable formats dates ttl_seconds buffer code w
          (Reach-Coherent (empty-Coherent start empty) reach)).1
        found e
