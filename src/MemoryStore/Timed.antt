-- ===== src/MemoryStore/Timed.antt =====
-- `MemoryLinkStore` as a `LinkStore`: the store with the clock that its calls read, and the laws that
-- it keeps.
use wrap_link.Prelude.{
  ℕ, ◌+◌, ◌≡◌, refl, sym, ap, subst, ◌∙◌, Bool, true, false, Bool-cases, inl, inr, Option, none,
  some, Text, text_eq_iff, Result, ok, throw, if◌then◌else◌, arith,
}
use wrap_link.Prelude.Maps.{Map, get, set, delete, get-set}
use wrap_link.Links.{Link, CreateLinkInput, LinkStore}
use wrap_link.Links.Contract.{IsLive, SameLink, LinkStoreLaws}
use wrap_link.MemoryStore.{
  MemoryLinkStore, make_room, new_link, create_unless, create, has_expired, find_found, find,
  count_click, record_click, size,
}

pub record TimedStore : Type 0 where
  pub store : MemoryLinkStore
  pub now : ℕ

abbrev pub memory_link_store : LinkStore
memory_link_store = record {
  State = TimedStore;
  create_link =
      λ input t. let (s, link) = create input t.now t.store in (record t { store = s }, ok link);
  find_link =
      λ code t. let (s, link) = find code t.now t.store in (record t { store = s }, ok link);
  click_link = λ code t. (record t { store = record_click code t.store }, ok tt);
  count_links = λ t. (t, ok (size t.store));
  is_healthy = λ t. (t, ok true);
}

-- The map has the link under its code, with some count of clicks.
abbrev pub Stored : Link → TimedStore → Type 0
Stored link t = (held : Link) × (get link.code t.store.links ≡ some held) × SameLink held link

abbrev value : Result (Option Link) → Option Link
value (ok found) = found
value (throw e) = none

same : (link : Link) → SameLink link link
same link = record {
  same_code = refl;
  same_target = refl;
  same_creation = refl;
  same_expiry = refl;
}

get-set_self : (code : Text) (link : Link) (m : Map Link) → get code (set code link m) ≡ some link
get-set_self code link m =
    get-set code code link m
    ∙ ap (λ b. if b then some link else get code m) ((text_eq_iff code code).1 refl)

IsLive-has_expired :
    (expires_at : Option ℕ) (now : ℕ) → IsLive expires_at now → has_expired expires_at now ≡ false
IsLive-has_expired none now live = refl
IsLive-has_expired (some t) now live = ground arith

pub has_expired-IsLive :
    (expires_at : Option ℕ) (now : ℕ) → has_expired expires_at now ≡ false → IsLive expires_at now
has_expired-IsLive none now h = tt
has_expired-IsLive (some t) now h = ground arith

abbrev or_link : Link → Option Link → Link
or_link other none = other
or_link other (some l) = l

-- The answer to a find of a link in the map, by whether it has expired.
abbrev answer_if : Link → Text → MemoryLinkStore → Bool → Option Link
answer_if held code s over =
    let found : MemoryLinkStore × Option Link =
      if over then (record s { links = delete code s.links }, none) else (s, some held) in
    found.1

create-Stored :
    (input : CreateLinkInput) (link : Link) (now : ℕ) (s s' : MemoryLinkStore) (found : Option Link)
    → create_unless found input now s ≡ (s', some link)
    → (get input.code s'.links ≡ some link) × (link ≡ new_link input now)
unfolding create_unless
create-Stored input link now s s' (some l) h = cc (ap (λ p. p.1) h)
create-Stored input link now s s' none h =
    let made : some (new_link input now) ≡ some link = ap (λ p. p.1) h in
    (
      ap (λ p. get input.code p.0.links) (sym h)
          ∙ get-set_self input.code (new_link input now) (make_room s)
          ∙ made,
      cc,
    )

find_live :
    (held : Link) (code : Text) (t : TimedStore)
    → get code t.store.links ≡ some held
    → has_expired held.expires_at t.now ≡ false
    → find code t.now t.store ≡ (t.store, some held)
unfolding find find_found
find_live held code t e live =
    ap (λ o. find_found o code t.now t.store) e
    ∙ ap
        (λ b.
          if b
          then (record t.store { links = delete code t.store.links }, none)
          else (t.store, some held))
        live

pub find-Stored :
    (link : Link) (t : TimedStore)
    → Stored link t
    → IsLive link.expires_at t.now
    → (found : Link) × (t' : TimedStore) × (memory_link_store.find_link link.code t
        ≡ (t', ok (some found)))
      × SameLink found link
      × Stored link t'
find-Stored link t (held, e, k) live = (
  held,
  t,
  ap (λ p. (record t { store = p.0 }, ok p.1))
      (find_live held link.code t e (
        ap (λ x. has_expired x t.now) k.same_expiry
        ∙ IsLive-has_expired link.expires_at t.now live)),
  k,
  (held, e, k),
)

pub click-Stored :
    (link : Link) (t : TimedStore)
    → Stored link t
    → Stored link (record t { store = record_click link.code t.store })
unfolding record_click count_click
click-Stored link t (held, e, k) =
    subst (λ o. Stored link (record t { store = count_click o link.code t.store })) (sym e)
      (
        record held { clicks = held.clicks + 1 },
        get-set_self link.code (record held { clicks = held.clicks + 1 }) t.store.links,
        record {
          same_code = k.same_code;
          same_target = k.same_target;
          same_creation = k.same_creation;
          same_expiry = k.same_expiry;
        },
      )

pub memory_create-Stored :
    (input : CreateLinkInput) (link : Link) (t t' : TimedStore)
    → memory_link_store.create_link input t ≡ (t', ok (some link))
    → Stored link t'
      × (link.code ≡ input.code)
      × (link.target_url ≡ input.target_url)
      × (link.expires_at ≡ input.expires_at)
unfolding create
memory_create-Stored input link t t' h =
    let (found, made) =
      create-Stored input link t.now t.store t'.store (get input.code t.store.links)
        (ap (λ p. (p.0.store, value p.1)) h) in
    (
      (link, ap (λ l. get l.code t'.store.links) made ∙ found, same link),
      ap (λ l. l.code) made,
      ap (λ l. l.target_url) made,
      ap (λ l. l.expires_at) made,
    )

unfoldable pub timed_laws : LinkStoreLaws memory_link_store
timed_laws = record {
  time = λ t. t.now;
  Holds = Stored;
  create-Holds = memory_create-Stored;
  find-Holds = find-Stored;
  click-Holds = λ link t h. (_, refl, click-Stored link t h);
}

-- What a find returns has not expired.
found-IsLive :
    (found : Option Link) (code : Text) (now : ℕ) (s : MemoryLinkStore) (link : Link)
    → (find_found found code now s).1 ≡ some link
    → IsLive link.expires_at now
unfolding find_found
found-IsLive none code now s link e = cc
found-IsLive (some held) code now s link e = elim (Bool-cases (has_expired held.expires_at now)) [
  | inl over ↦ cc (sym (ap (answer_if held code s) over) ∙ e)
  | inr left ↦
      subst (λ l. IsLive l.expires_at now)
        (ap (or_link held) (sym (ap (answer_if held code s) left) ∙ e))
        (has_expired-IsLive held.expires_at now left)
]

find-IsLive :
    (code : Text) (t t' : TimedStore) (link : Link)
    → memory_link_store.find_link code t ≡ (t', ok (some link))
    → IsLive link.expires_at t.now
unfolding find
find-IsLive code t t' link e =
    found-IsLive (get code t.store.links) code t.now t.store link (ap (λ p. value p.1) e)

-- The memory store keeps the contract of a link store, with its clock as the time: a link that
-- `create` returned is held, which means that the map has it under its code with some count of
-- clicks, and has the code, the target and the expiry that were asked for; of a link that is held and
-- whose expiry, if it has one, is still to come, `find` returns all but the count of clicks, and
-- neither a `find` of it nor a click on it fails or ends that it is held, though a `create` of
-- another code may evict it; and `find` never returns a link whose expiry has come.
memory_laws :
    (laws : LinkStoreLaws memory_link_store) × ((t : TimedStore) → laws.time t ≡ t.now)
    × ((link : Link) (t : TimedStore) → laws.Holds link t ≡ Stored link t)
    × ((code : Text) (t t' : TimedStore) (link : Link)
        → memory_link_store.find_link code t ≡ (t', ok (some link))
        → IsLive link.expires_at t.now)
unfolding timed_laws
memory_laws = (timed_laws, λ t. refl, λ link t. refl, find-IsLive)

-- What the laws speak of.
pub memory_Holds-Stored :
    (link : Link) (t : TimedStore) → LinkStoreLaws.Holds timed_laws link t → Stored link t
unfolding timed_laws
memory_Holds-Stored link t h = h

pub memory_time : (t : TimedStore) → LinkStoreLaws.time timed_laws t ≡ t.now
unfolding timed_laws
memory_time t = refl
