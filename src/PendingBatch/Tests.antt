-- ===== src/PendingBatch/Tests.antt =====
-- Batches with a replay, a conflict, a new link and two links with one code.
use wrap_link.Prelude.{◌≡◌, refl, inl, inr, List, [], ◌∷◌, none, Text, codes, text_eq}
use wrap_link.Prelude.Maps.{Map, has, get, set}
use wrap_link.Links.{PendingLink}
use wrap_link.PendingBatch.{LinkRow, row_of, first_of_each, insert_pending_batch}
use wrap_link.PendingBatch.Reports.{Settled, insert_pending_batch-Settled}
use wrap_link.PendingBatch.Replay.{codes_of, insert_pending_batch_replay}

abbrev link : Text → Text → PendingLink
link code url = record { code = code; target_url = url; created_at = 5; expires_at = none }

abbrev known : PendingLink
known = link (codes "known") (codes "https://a.example/")

abbrev taken : PendingLink
taken = link (codes "taken") (codes "https://b.example/")

abbrev new : PendingLink
new = link (codes "newer") (codes "https://c.example/")

abbrev table : Map LinkRow
table =
    (codes "known", row_of known)
    ∷ (codes "taken", row_of (link (codes "taken") (codes "https://z.example/")))
    ∷ []

abbrev batch : List PendingLink
batch = known ∷ taken ∷ new ∷ link (codes "newer") (codes "https://d.example/") ∷ []

batch_sorted :
    (insert_pending_batch (λ t. t) batch table).1
    ≡ record { persisted = codes "newer" ∷ codes "known" ∷ []; conflicts = taken ∷ [] }
unfolding insert_pending_batch get has set text_eq
batch_sorted = refl

insert_pending_batch-Settled_example :
    let (table', r) = insert_pending_batch (λ t. t) batch table in Settled r table' taken
unfolding first_of_each has text_eq
insert_pending_batch-Settled_example =
    insert_pending_batch-Settled (λ t. t) batch table taken (λ t code row e. (row, e, refl, refl))
      (inr (inl refl))

insert_pending_batch_replay_example : insert_pending_batch (λ t. t) (known ∷ known ∷ []) table ≡ (
  table,
  record { persisted = codes_of (first_of_each [] (known ∷ known ∷ [])); conflicts = [] },
)
unfolding first_of_each has text_eq get
insert_pending_batch_replay_example =
    insert_pending_batch_replay (known ∷ known ∷ []) table ((row_of known, refl, (refl, refl)), tt)
