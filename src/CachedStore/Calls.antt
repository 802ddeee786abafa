-- ===== src/CachedStore/Calls.antt =====
-- Each call of the cached store keeps the cache in agreement with the source, and `find` returns what
-- the source shows.
use wrap_link.CachedStore.{
  Entry, Cache, put, Call, offline, replies, rejects, loses_reply, read_hash, increment_click,
  Formats, CachedStore, affect, write_safely, cache_safely, judge, read_entry, read_reply,
  read_safely, cached_answer, create, find_missing, find, count_durably, count_cached, record_click,
}
use wrap_link.CachedStore.Reading.{SameLink-trans, SameLink-eq, or_link, read_hash-identity}
use wrap_link.CachedStore.Coherence.{
  DatesRoundTrip, Shows, IsCoherent, Keeps-IsCoherent, forget-IsCoherent, cache_link-IsCoherent,
  increment-IsCoherent,
}
use wrap_link.Prelude.{
  ℕ, ◌≡◌, refl, sym, ap, subst, ◌∙◌, inl, inr, false, Option, none, some, Text, Result, ok, throw,
  Bool-cases, arith,
}
use wrap_link.Links.{LinkStore, Link, CreateLinkInput}
use wrap_link.Links.Contract.{IsLive, SameLink}
use wrap_link.Links.Durable.{SameAnswer, Keeps, DurableStore}
use wrap_link.MemoryStore.{has_expired}

not_expired-IsLive : (e : Option ℕ) (now : ℕ) → has_expired e now ≡ false → IsLive e now
not_expired-IsLive none now h = tt
not_expired-IsLive (some at) now h = ground arith

abbrev answer_or : Option Link → Result (Option Link) → Option Link
answer_or other (ok found) = found
answer_or other (throw m) = other

abbrev pub Buffer : LinkStore → Type 0
Buffer source = Option (Text → LinkStore.State source → LinkStore.State source × Result (Unit {0}))

module _ (source : LinkStore) (durable : DurableStore source) (formats : Formats)
    (dates : DatesRoundTrip formats) (ttl_seconds : ℕ) (buffer : Buffer source) where
  open durable use {
    time, shown, create-Keeps, find-Keeps, click-Keeps, create-shown, find-shown, shown-code,
  }

  abbrev Store : Type 0
  Store = CachedStore source time formats ttl_seconds buffer

  abbrev pub Coherent : Store → Type 0
  Coherent w = IsCoherent source durable formats dates w.cache w.state

  -- The click buffer writes to the source later: what it does at once keeps the links.
  abbrev pub BufferKeeps : Buffer source → Type 0
  BufferKeeps none = Unit
  BufferKeeps (some record_buffered) =
      (code : Text) (s : LinkStore.State source) → Keeps time shown s (record_buffered code s).0

  pub moved-Coherent :
      (w : Store) (s : LinkStore.State source)
      → Keeps time shown w.state s
      → Coherent w
      → Coherent (record w { state = s })
  moved-Coherent w s keeps c =
      Keeps-IsCoherent source durable formats dates w.cache w.state s keeps c

  Keeps-result :
      {A : Type 0} {s s' : LinkStore.State source} {called : LinkStore.State source × Result A}
      {r : Result A}
      → Keeps time shown s called.0
      → called ≡ (s', r)
      → Keeps time shown s s'
  Keeps-result {s = s} keeps e = subst (λ p. Keeps time shown s p.0) e keeps

  affect-IsCoherent :
      (call : Call) (change : Cache → Cache) (cache : Cache) (s : LinkStore.State source)
      → IsCoherent source durable formats dates cache s
      → IsCoherent source durable formats dates (change cache) s
      → IsCoherent source durable formats dates
          (affect source time formats ttl_seconds buffer call change cache)
          s
  unfolding affect
  affect-IsCoherent offline change cache s c c' = c
  affect-IsCoherent replies change cache s c c' = c'
  affect-IsCoherent rejects change cache s c c' = c
  affect-IsCoherent loses_reply change cache s c c' = c'

  write_safely-Coherent :
      (change : Cache → Cache) (w : Store)
      → Coherent w
      → IsCoherent source durable formats dates (change w.cache) w.state
      → Coherent (write_safely source time formats ttl_seconds buffer change w)
  unfolding write_safely
  write_safely-Coherent change w c c' = affect-IsCoherent _ change w.cache w.state c c'

  cache_safely-Coherent :
      (link : Link) (w : Store)
      → Coherent w
      → Shows source durable formats dates link.code link w.state
      → Coherent (cache_safely source time formats ttl_seconds buffer (some link) w)
  unfolding cache_safely
  cache_safely-Coherent link w c shows = write_safely-Coherent _ w c (
      cache_link-IsCoherent source durable formats dates w.cache w.state c ttl_seconds
        (time w.state) link shows)

  create-answered :
      (input : CreateLinkInput) (w : Store) (s : LinkStore.State source)
      (result : Result (Option Link))
      → LinkStore.create_link source input w.state ≡ (s, result)
      → Coherent w
      → Coherent
          (cached_answer source time formats ttl_seconds buffer result (record w { state = s })).0
  unfolding cached_answer cache_safely
  create-answered input w s (throw m) e c =
      moved-Coherent w s (Keeps-result (create-Keeps input w.state) e) c
  create-answered input w s (ok none) e c =
      moved-Coherent w s (Keeps-result (create-Keeps input w.state) e) c
  create-answered input w s (ok (some link)) e c =
      cache_safely-Coherent link (record w { state = s })
        (moved-Coherent w s (Keeps-result (create-Keeps input w.state) e) c)
        (create-shown input link w.state s e)

  pub create-Coherent :
      (input : CreateLinkInput) (w : Store)
      → Coherent w
      → Coherent (create source time formats ttl_seconds buffer input w).0
  unfolding create
  create-Coherent input w c = create-answered input w _ _ refl c

  -- The link, if there is one, is what the source shows.
  abbrev Matches : Text → LinkStore.State source → Option Link → Type 0
  Matches code s none = Unit
  Matches code s (some link) =
      (shown_link : Link) × (shown code s ≡ some shown_link) × SameLink link shown_link

  -- After a read: coherent, the source untouched, and a link that matches.
  abbrev ReadWell : Text → LinkStore.State source → Store × Option Link → Type 0
  ReadWell code s out = Coherent out.0 × (out.0.state ≡ s) × Matches code s out.1

  discarded :
      (code : Text) (w : Store)
      → Coherent w
      → Coherent (write_safely source time formats ttl_seconds buffer (put code none) w)
  discarded code w c =
      write_safely-Coherent (put code none) w c
        (forget-IsCoherent source durable formats dates w.cache w.state c code)

  judge-ReadWell :
      (e : Entry) (code : Text) (w : Store) (read : Option Link)
      → read_hash formats.parse_date formats.parse_number e.fields ≡ read
      → w.cache code ≡ some e
      → Coherent w
      → ReadWell code w.state (judge source time formats ttl_seconds buffer read code w)
  unfolding judge write_safely
  judge-ReadWell e code w none r at c = (discarded code w c, refl, tt)
  judge-ReadWell e code w (some link) r at c =
      elim (Bool-cases (has_expired link.expires_at (time w.state))) [
        | inl over ↦ rw over (discarded code w c, refl, tt)
        | inr left ↦ rw left (c, refl, live_match left)
      ]
    where
      live_match :
          has_expired link.expires_at (time w.state) ≡ false → Matches code w.state (some link)
      live_match left =
          let (id, found, same) =
            read_hash-identity formats.parse_date formats.parse_number e.fields link r in
          let (l, shown_l, same_l) = c.agrees code e id at found (
            subst (λ x. IsLive x (time w.state)) same.same_expiry
              (not_expired-IsLive link.expires_at (time w.state) left)) in
          (l, shown_l, SameLink-trans same same_l)

  read_entry-ReadWell :
      (entry : Option Entry) (code : Text) (w : Store)
      → w.cache code ≡ entry
      → Coherent w
      → ReadWell code w.state (read_entry source time formats ttl_seconds buffer entry code w)
  unfolding read_entry
  read_entry-ReadWell none code w at c = (c, refl, tt)
  read_entry-ReadWell (some e) code w at c = judge-ReadWell e code w _ refl at c

  read_reply-ReadWell :
      (call : Call) (code : Text) (w : Store)
      → Coherent w
      → ReadWell code w.state (read_reply source time formats ttl_seconds buffer call code w)
  unfolding read_reply
  read_reply-ReadWell offline code w c = (c, refl, tt)
  read_reply-ReadWell replies code w c = read_entry-ReadWell (w.cache code) code w refl c
  read_reply-ReadWell rejects code w c = (c, refl, tt)
  read_reply-ReadWell loses_reply code w c = (c, refl, tt)

  read_safely-ReadWell :
      (code : Text) (w : Store)
      → Coherent w
      → ReadWell code w.state (read_safely source time formats ttl_seconds buffer code w)
  unfolding read_safely
  read_safely-ReadWell code w c = read_reply-ReadWell _ code _ (record { agrees = c.agrees })

  abbrev Answered : Text → LinkStore.State source → Store × Result (Option Link) → Type 0
  Answered code s out =
      Coherent out.0 × ((found : Option Link) → out.1 ≡ ok found → SameAnswer found (shown code s))

  found-SameAnswer :
      (code : Text) (s : LinkStore.State source) (link : Link)
      → Matches code s (some link)
      → SameAnswer (some link) (shown code s)
  found-SameAnswer code s link (l, e, same) = subst (SameAnswer (some link)) (sym e) same

  SameAnswer-eq : (a b : Option Link) → a ≡ b → SameAnswer a b
  SameAnswer-eq none none e = tt
  SameAnswer-eq none (some b) e = cc
  SameAnswer-eq (some a) none e = cc
  SameAnswer-eq (some a) (some b) e = SameLink-eq (ap (or_link a) e)

  source-Answered :
      (code : Text) (w : Store) (s : LinkStore.State source) (result : Result (Option Link))
      → LinkStore.find_link source code w.state ≡ (s, result)
      → Coherent w
      → Answered code w.state
          (cached_answer source time formats ttl_seconds buffer result (record w { state = s }))
  unfolding cached_answer cache_safely
  source-Answered code w s (throw m) e c =
      (moved-Coherent w s (Keeps-result (find-Keeps code w.state) e) c, λ found h. cc)
  source-Answered code w s (ok none) e c = (
    moved-Coherent w s (Keeps-result (find-Keeps code w.state) e) c,
    λ found h.
        SameAnswer-eq found _
          (ap (answer_or found) (sym h) ∙ sym (find-shown code w.state s none e).0),
  )
  source-Answered code w s (ok (some link)) e c =
      let (before, after) = find-shown code w.state s (some link) e in
      let same : link.code ≡ code = shown-code code s link after in
      (
        cache_safely-Coherent link (record w { state = s })
            (moved-Coherent w s (Keeps-result (find-Keeps code w.state) e) c)
            (λ live. (link, ap (λ k. shown k s) same ∙ after, SameLink-eq refl)),
        λ found h. SameAnswer-eq found _ (ap (answer_or found) (sym h) ∙ sym before),
      )

  find_missing-Answered :
      (cached : Option Link) (code : Text) (w : Store)
      → Coherent w
      → Matches code w.state cached
      → Answered code w.state (find_missing source time formats ttl_seconds buffer cached code w)
  unfolding find_missing
  find_missing-Answered none code w c m = source-Answered code w _ _ refl c
  find_missing-Answered (some link) code w c m = (
    c,
    λ found h.
        subst (λ a. SameAnswer a (shown code w.state)) (ap (answer_or found) h)
          (found-SameAnswer code w.state link m),
  )

  pub find-Answered :
      (code : Text) (w : Store)
      → Coherent w
      → Answered code w.state (find source time formats ttl_seconds buffer code w)
  unfolding find
  find-Answered code w c =
      let (c', same, m) = read_safely-ReadWell code w c in
      subst (λ s. Answered code s (find source time formats ttl_seconds buffer code w)) same
        (find_missing-Answered _ code _ c' (
          subst (λ s. Matches code s (read_safely source time formats ttl_seconds buffer code w).1)
            (sym same) m))

  module _ (buffer_keeps : BufferKeeps buffer) where
    count_durably-Keeps :
        (b : Buffer source) (code : Text) (s : LinkStore.State source)
        → BufferKeeps b
        → Keeps time shown s (count_durably source time formats ttl_seconds buffer b code s).0
    unfolding count_durably
    count_durably-Keeps none code s keeps = click-Keeps code s
    count_durably-Keeps (some f) code s keeps = keeps code s

    count_cached-Coherent :
        (result : Result (Unit {0})) (code : Text) (w : Store)
        → Coherent w
        → Coherent (count_cached source time formats ttl_seconds buffer result code w).0
    unfolding count_cached
    count_cached-Coherent (throw m) code w c = c
    count_cached-Coherent (ok _) code w c =
        write_safely-Coherent (increment_click formats.increment code) w c
          (increment-IsCoherent source durable formats dates w.cache w.state c code)

    pub record_click-Coherent :
        (code : Text) (w : Store)
        → Coherent w
        → Coherent (record_click source time formats ttl_seconds buffer code w).0
    unfolding record_click
    record_click-Coherent code w c =
        count_cached-Coherent _ code _
          (moved-Coherent w _ (count_durably-Keeps buffer code w.state buffer_keeps) c)
