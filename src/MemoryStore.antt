-- ===== src/MemoryStore.antt =====
-- src/store/memory-link-store.ts: `MemoryLinkStore`. The time of a call is an argument.
pub mod Laws
pub mod Timed
mod Tests
use wrap_link.Prelude.{
  ℕ, ◌+◌, Bool, true, false, List, [], ◌∷◌, Option, none, some, Text, length, leb, if◌then◌else◌,
}
use wrap_link.Prelude.Maps.{Map, get, set, delete}
use wrap_link.Links.{Link, CreateLinkInput}

-- `links` has the entries in the order of their insertion, the oldest first.
pub record MemoryLinkStore : Type 0 where
  pub links : Map Link
  pub max_links : ℕ

evict_oldest : Map Link → Map Link
evict_oldest [] = []
evict_oldest ((code, link) ∷ m) = delete code ((code, link) ∷ m)

-- The entries that stay when a new one comes.
unfoldable pub make_room : MemoryLinkStore → Map Link
unfolding evict_oldest
make_room s = if leb s.max_links (length s.links) then evict_oldest s.links else s.links

abbrev pub new_link : CreateLinkInput → ℕ → Link
new_link input now = record {
  code = input.code;
  target_url = input.target_url;
  created_at = now;
  expires_at = input.expires_at;
  clicks = 0;
}

create_unless : Option Link → CreateLinkInput → ℕ → MemoryLinkStore → MemoryLinkStore × Option Link
unfolding make_room
create_unless (some _) input now s = (s, none)
create_unless none input now s =
    let link = new_link input now in
    (record s { links = set link.code link (make_room s) }, some link)

unfoldable pub create : CreateLinkInput → ℕ → MemoryLinkStore → MemoryLinkStore × Option Link
unfolding create_unless
create input now s = create_unless (get input.code s.links) input now s

-- `link.expiresAt && link.expiresAt.getTime() <= Date.now()`
abbrev pub has_expired : Option ℕ → ℕ → Bool
has_expired none now = false
has_expired (some at) now = leb at now

find_found : Option Link → Text → ℕ → MemoryLinkStore → MemoryLinkStore × Option Link
find_found none code now s = (s, none)
find_found (some link) code now s =
    if has_expired link.expires_at now
    then (record s { links = delete code s.links }, none)
    else (s, some link)

unfoldable pub find : Text → ℕ → MemoryLinkStore → MemoryLinkStore × Option Link
unfolding find_found
find code now s = find_found (get code s.links) code now s

-- The link object is shared with the map, so its count changes in place.
count_click : Option Link → Text → MemoryLinkStore → MemoryLinkStore
count_click none code s = s
count_click (some link) code s = record s {
  links = set code (record link { clicks = link.clicks + 1 }) s.links;
}

unfoldable pub record_click : Text → MemoryLinkStore → MemoryLinkStore
unfolding count_click
record_click code s = count_click (get code s.links) code s

unfoldable pub size : MemoryLinkStore → ℕ
size s = length s.links

-- The calls that change the store.
pub data Call : Type 0 where
  creates : CreateLinkInput → ℕ → Call
  finds : Text → ℕ → Call
  clicks : Text → Call

unfoldable pub step : MemoryLinkStore → Call → MemoryLinkStore
unfolding create find record_click
step s (creates input now) = (create input now s).0
step s (finds code now) = (find code now s).0
step s (clicks code) = record_click code s

unfoldable pub run : MemoryLinkStore → List Call → MemoryLinkStore
run s [] = s
run s (c ∷ cs) = run (step s c) cs
