-- ===== src/CachedStore/Coherence.antt =====
-- The cache agrees with the source: what a hash says of a link that has not expired, the source shows
-- too. Each change of the hashes and each call of the source keeps it so.
use wrap_link.CachedStore.{
  Hash, Entry, Cache, put, read_identity, hash_of, keep_until, cache_link, set_clicks, count_entry,
  increment_click, Formats,
}
use wrap_link.CachedStore.Reading.{SameLink-trans, read_identity-clicks, read_identity-hash_of}
use wrap_link.Prelude.{
  ℕ, ◌-◌, ◌/◌, ◌≤◌, ◌≡◌, ◌≢◌, refl, sym, ap, subst, ◌∙◌, inl, inr, true, false, [], Option, none,
  some, Text, text_eq, text_eq_iff, Bool-cases, ◌==◌, min, if◌then◌else◌, arith,
}
use wrap_link.Links.{LinkStore, Link}
use wrap_link.Links.Contract.{IsLive, SameLink}
use wrap_link.Links.Durable.{Keeps, DurableStore}

pub IsLive-earlier : (e : Option ℕ) {t t' : ℕ} → t ≤ t' → IsLive e t' → IsLive e t
IsLive-earlier none h live = tt
IsLive-earlier (some at) h live = omega arith

put-same :
    (code other : Text) (entry : Option Entry) (cache : Cache)
    → text_eq code other ≡ true
    → put code entry cache other ≡ entry
unfolding put
put-same code other entry cache h = ap (λ b. if b then entry else cache other) h

put-other :
    (code other : Text) (entry : Option Entry) (cache : Cache)
    → text_eq code other ≡ false
    → put code entry cache other ≡ cache other
unfolding put
put-other code other entry cache h = ap (λ b. if b then entry else cache other) h

-- Dates that are written can be read again, and are not empty.
pub record DatesRoundTrip (formats : Formats) : Type 0 where
  pub parse_date-to_iso : (t : ℕ) → formats.parse_date (formats.to_iso t) ≡ some t
  pub to_iso_given : (t : ℕ) → formats.to_iso t ≢ []

module _ (source : LinkStore) (durable : DurableStore source) (formats : Formats)
    (dates : DatesRoundTrip formats) where
  open durable use {time, shown}

  abbrev identity : Hash → Option Link
  identity h = read_identity formats.parse_date formats.parse_number h

  -- The source shows the link, as long as it has not expired.
  abbrev pub Shows : Text → Link → LinkStore.State source → Type 0
  Shows code link s =
      IsLive link.expires_at (time s)
      → (link' : Link) × (shown code s ≡ some link') × SameLink link link'

  pub record IsCoherent (cache : Cache) (s : LinkStore.State source) : Type 0 where
    pub agrees :
        (code : Text) (e : Entry) (id : Link)
        → cache code ≡ some e
        → read_identity formats.parse_date formats.parse_number e.fields ≡ some id
        → Shows code id s

  Shows-Keeps :
      (code : Text) (link : Link) (s s' : LinkStore.State source)
      → Keeps time shown s s'
      → Shows code link s
      → Shows code link s'
  Shows-Keeps code link s s' keeps shows live =
      let (l, e, same) = shows (IsLive-earlier link.expires_at keeps.0 live) in
      let (l', e', same') =
        keeps.1 code l e (subst (λ x. IsLive x (time s')) same.same_expiry live) in
      (l', e', SameLink-trans same same')

  pub Keeps-IsCoherent :
      (cache : Cache) (s s' : LinkStore.State source)
      → Keeps time shown s s'
      → IsCoherent cache s
      → IsCoherent cache s'
  Keeps-IsCoherent cache s s' keeps c = record {
    agrees = λ code e id found read. Shows-Keeps code id s s' keeps (c.agrees code e id found read);
  }

  abbrev fields_or : Entry → Option Entry → Hash
  fields_or other none = other.fields
  fields_or other (some e) = e.fields

  set_clicks-identity :
      (n : Option Text) (e : Entry) → identity (set_clicks n e).fields ≡ identity e.fields
  unfolding set_clicks
  set_clicks-identity none e = refl
  set_clicks-identity (some n) e =
      read_identity-clicks formats.parse_date formats.parse_number e.fields (some n)

  module _ (cache : Cache) (s : LinkStore.State source) (c : IsCoherent cache s) where
    pub put-IsCoherent :
        (code : Text) (entry : Option Entry)
        → ((e : Entry) (id : Link)
            → entry ≡ some e
            → read_identity formats.parse_date formats.parse_number e.fields ≡ some id
            → Shows code id s)
        → IsCoherent (put code entry cache) s
    put-IsCoherent code entry entry_agrees = record {
      agrees = λ other e id found read. elim (Bool-cases (text_eq code other)) [
        | inl same ↦
            subst (λ k. Shows k id s) ((text_eq_iff code other).0 same)
              (entry_agrees e id (sym (put-same code other entry cache same) ∙ found) read)
        | inr differs ↦
            c.agrees other e id (sym (put-other code other entry cache differs) ∙ found) read
      ];
    }

    pub forget-IsCoherent : (code : Text) → IsCoherent (put code none cache) s
    forget-IsCoherent code = put-IsCoherent code none (λ e id h read. cc)

    keep-IsCoherent :
        (link : Link) (ttl : ℕ)
        → Shows link.code link s
        → IsCoherent
            (put link.code
              (some (record {
                fields = hash_of formats.to_iso formats.to_decimal link;
                ttl_seconds = ttl;
              }))
              cache)
            s
    keep-IsCoherent link ttl shows = put-IsCoherent link.code _ (λ e id h read live.
        let same : SameLink id link =
          read_identity-hash_of formats.parse_date formats.parse_number formats.to_iso
            formats.to_decimal dates.parse_date-to_iso dates.to_iso_given link id
            (ap (λ o. identity (fields_or e o)) h ∙ read) in
        let (l, shown_l, same_l) = shows (subst (λ x. IsLive x (time s)) same.same_expiry live) in
        (l, shown_l, SameLink-trans same same_l))

    keep_until-IsCoherent :
        (expiry : Option ℕ) (ttl now : ℕ) (link : Link)
        → Shows link.code link s
        → IsCoherent (keep_until formats.to_iso formats.to_decimal expiry ttl now link cache) s
    unfolding keep_until
    keep_until-IsCoherent none ttl now link shows = keep-IsCoherent link ttl shows
    keep_until-IsCoherent (some t) ttl now link shows = elim (Bool-cases ((t - now) / 1000 == 0)) [
      | inl over ↦ rw over (forget-IsCoherent link.code)
      | inr left ↦ rw left (keep-IsCoherent link (min ttl ((t - now) / 1000)) shows)
    ]

    pub cache_link-IsCoherent :
        (ttl now : ℕ) (link : Link)
        → Shows link.code link s
        → IsCoherent (cache_link formats.to_iso formats.to_decimal ttl now link cache) s
    unfolding cache_link
    cache_link-IsCoherent ttl now link shows =
        keep_until-IsCoherent link.expires_at ttl now link shows

    counted-identity :
        (code : Text) (found : Option Entry) (e : Entry) (id : Link)
        → cache code ≡ found
        → count_entry formats.increment found ≡ some e
        → identity e.fields ≡ some id
        → Shows code id s
    unfolding count_entry
    counted-identity code none e id at h read = cc
    counted-identity code (some old) e id at h read = c.agrees code old id at (
        sym (set_clicks-identity (formats.increment old.fields.clicks) old)
        ∙ ap (λ o. identity (fields_or e o)) h
        ∙ read)

    pub increment-IsCoherent :
        (code : Text) → IsCoherent (increment_click formats.increment code cache) s
    unfolding increment_click
    increment-IsCoherent code =
        put-IsCoherent code _ (λ e id h read. counted-identity code (cache code) e id refl h read)
