-- ===== src/CachedStore/Tests.antt =====
-- The cached store over PostgreSQL, and the theorems at inputs that meet their hypotheses.
use wrap_link.CachedStore.{
  put, offline, Formats, CachedStore, find, cache_safely, write_safely, read_safely, read_hash,
  read_identity,
}
use wrap_link.CachedStore.Coherence.{DatesRoundTrip}
use wrap_link.CachedStore.History.{here, next, finds, find_refines_source}
use wrap_link.Prelude.{
  ℕ, ◌+◌, ◌≡◌, ◌≢◌, refl, [], ◌∷◌, Option, none, some, Text, codes, JsNumber, integer, pos, other,
  ok, text_eq, is_safe_integer, at_least, nat_value,
}
use wrap_link.Prelude.Maps.{get}
use wrap_link.Links.{Link}
use wrap_link.Links.Durable.{SameAnswer, DurableStore}
use wrap_link.PostgresStore.{Database, Fate, answers, postgres_link_store}
use wrap_link.PostgresStore
use wrap_link.PostgresStore.Durability.{database_laws}

abbrev parse_date : Text → Option ℕ
parse_date [] = none
parse_date (t ∷ rest) = some t

abbrev parse_number : Text → JsNumber
parse_number [] = other
parse_number (n ∷ rest) = integer (pos n)

abbrev increment : Option Text → Option Text
increment none = some (1 ∷ [])
increment (some []) = none
increment (some (n ∷ rest)) = some ((n + 1) ∷ [])

abbrev formats : Formats
formats = record {
  to_iso = λ t. t ∷ [];
  parse_date = parse_date;
  to_decimal = λ n. n ∷ [];
  parse_number = parse_number;
  increment = increment;
}

given : (t : ℕ) → ◌≢◌ {A = Text} (t ∷ []) []
given t e = cc

abbrev dates : DatesRoundTrip formats
dates = record { parse_date-to_iso = λ t. refl; to_iso_given = λ t. given t }

abbrev table : Database
table = record {
  rows =
      (
        codes "docs",
        record {
          target_url = codes "https://example.com/";
          created_ms = 5;
          expires_at = some 90000;
          clicks = 2;
        },
      )
      ∷ [];
  now = 10;
  fates = [];
}

abbrev Store : Type 0
Store = CachedStore postgres_link_store (DurableStore.time database_laws) formats 60 none

abbrev start : Store
start = record { state = table; cache = λ code. none; calls = offline ∷ [] }

abbrev docs : Link
docs = record {
  code = codes "docs";
  target_url = codes "https://example.com/";
  created_at = 5;
  expires_at = some 90000;
  clicks = 2;
}

abbrev visited : Store
visited =
    (find postgres_link_store (DurableStore.time database_laws) formats 60 none (codes "docs")
      start).0

hit :
    (find postgres_link_store
      (DurableStore.time database_laws)
      formats
      60
      none
      (codes "docs")
      visited).1
    ≡ ok (some docs)
unfolding find read_safely PostgresStore.find cache_safely get text_eq write_safely database_laws
    put read_hash read_identity is_safe_integer at_least nat_value
hit = refl

find_refines_source_example :
    SameAnswer (some docs) (DurableStore.shown database_laws (codes "docs") visited.state)
find_refines_source_example =
    find_refines_source postgres_link_store database_laws formats dates 60 none tt start visited
      (codes "docs") (some docs) (λ code. refl) (next here (finds (codes "docs") start)) hit
