-- ===== src/SyncWorker/Tests.antt =====
-- Two workers on one shard, a lock that expires between the insert and the completion of the first,
-- and an entry that cannot be read.
use wrap_link.Prelude.{
  ℕ, ◌≡◌, refl, List, [], ◌∷◌, Option, none, some, Text, codes, text_eq, if◌then◌else◌, integer,
  pos, ok, is_positive, nat_value,
}
use wrap_link.Prelude.Maps.{Map, get}
use wrap_link.PendingLinks.{Field, field_text, field_null, Json, json_object, parse_pending_link}
use wrap_link.SyncWorker.{SyncOptions, new_options, complete, acquire, peek, release}
use wrap_link.SyncWorker.Run.{Inserted, answers, inserts, step}
use wrap_link.SyncWorker.History.{
  Happening, pushes, expires, steps, fresh_world, run, Lossless, run-Lossless,
}

abbrev options : SyncOptions
options = record { batch_size = 2; cache_ttl_seconds = 60; max_batches_per_shard = 10 }

options_new :
    new_options (integer (pos 1000)) (integer (pos 2)) (integer (pos 60)) none ≡ ok options
unfolding new_options is_positive nat_value
options_new = refl

-- The one text that this JSON reads is "link".
abbrev json_parse : Text → Option Json
json_parse s =
    if text_eq s (codes "link")
    then some (
        json_object (
          (codes "code", field_text (codes "abcd"))
          ∷ (codes "targetUrl", field_text (codes "https://example.com/"))
          ∷ (codes "createdAt", field_text (codes "then"))
          ∷ (codes "expiresAt", field_null)
          ∷ []))
    else none

abbrev json_stringify : Map Field → Text
json_stringify fields = codes "letter"

abbrev to_iso : ℕ → Text
to_iso t = t ∷ []

abbrev parse_date : Text → Option ℕ
parse_date s = some 7

abbrev written : Option Inserted
written = some (record { persisted = codes "abcd" ∷ []; conflicts = [] })

abbrev history : List Happening
history =
    pushes (codes "link")
    ∷ pushes (codes "junk")
    ∷ pushes (codes "link")
    ∷ steps 1 (answers 0)
    ∷ steps 1 (answers 0)
    ∷ steps 1 (answers 0)
    ∷ steps 1 (inserts written 0)
    ∷ expires
    ∷ steps 2 (answers 0)
    ∷ steps 2 (answers 0)
    ∷ steps 2 (answers 0)
    ∷ steps 2 (inserts written 0)
    ∷ steps 1 (answers 0)
    ∷ steps 2 (answers 0)
    ∷ steps 2 (answers 0)
    ∷ steps 2 (answers 0)
    ∷ steps 2 (inserts none 0)
    ∷ steps 2 (answers 0)
    ∷ []

history_left :
    (run json_parse json_stringify to_iso parse_date options fresh_world history).shard.queue
    ≡ codes "link" ∷ []
unfolding run step acquire peek parse_pending_link text_eq get complete release
history_left = refl

run-Lossless_example :
    Lossless json_parse json_stringify to_iso parse_date options
      (run json_parse json_stringify to_iso parse_date options fresh_world history)
run-Lossless_example = run-Lossless json_parse json_stringify to_iso parse_date options history
