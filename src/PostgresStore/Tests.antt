-- ===== src/PostgresStore/Tests.antt =====
-- The table on a small history.
use wrap_link.PostgresStore.{Database, answers, fails, create, find}
use wrap_link.Prelude.{◌≡◌, refl, [], ◌∷◌, none, some, codes, ok, text_eq}
use wrap_link.Prelude.Maps.{get, set}
use wrap_link.Links.{CreateLinkInput, custom}

abbrev empty_table : Database
empty_table = record { rows = []; now = 5; fates = answers ∷ answers ∷ fails ∷ [] }

abbrev docs : CreateLinkInput
docs = record {
  code = codes "docs";
  target_url = codes "https://example.com/";
  expires_at = some 50;
  code_source = custom;
}

abbrev later : Database → Database
later d = record d { now = 50 }

found_then_expired :
    (find docs.code (create docs empty_table).0).1
    ≡ ok (
        some (record {
          code = docs.code;
          target_url = docs.target_url;
          created_at = 5;
          expires_at = some 50;
          clicks = 0;
        }))
unfolding create find get set text_eq
found_then_expired = refl

expired : (find docs.code (later (create docs empty_table).0)).1 ≡ ok none
unfolding create find get set text_eq
expired = refl
