-- ===== src/WriteBehind/Tests.antt =====
-- The store before a memory store, and the theorems at inputs that meet their hypotheses.
use wrap_link.Prelude.{
  ℕ, ◌≤◌, ◌≡◌, ◌⊎◌, refl, true, List, [], ◌∷◌, length, none, some, Text, codes, ok, arith,
}
use wrap_link.Prelude.Maps.{Map, get}
use wrap_link.Keys.{shard_of, fnv1a32}
use wrap_link.Links.{LinkStore, CreateLinkInput, custom, generated}
use wrap_link.PendingLinks.{Field}
use wrap_link.SyncWorker.{Shard}
use wrap_link.WriteBehind.{replies, loses_reply, World, create_custom, create_generated}
use wrap_link.WriteBehind.Creation.{
  Existed, Delegated, Queued, create_generated_lem, create_custom-create_generated,
}
use wrap_link.WriteBehind.Limits.{Request, run, run-Bounded}
use wrap_link.MemoryStore.{MemoryLinkStore}
use wrap_link.MemoryStore

abbrev memory : LinkStore
memory = record {
  State = MemoryLinkStore;
  create_link = λ input s. let (s', link) = MemoryStore.create input 5 s in (s', ok link);
  find_link = λ code s. let (s', link) = MemoryStore.find code 5 s in (s', ok link);
  click_link = λ code s. (MemoryStore.record_click code s, ok tt);
  count_links = λ s. (s, ok (MemoryStore.size s));
  is_healthy = λ s. (s, ok true);
}

abbrev empty_shard : Shard
empty_shard = record { queue = []; lock = none; dead_letters = []; cache = [] }

abbrev world : World memory
world = record {
  redis = λ n. empty_shard;
  store = record { links = []; max_links = 10 };
  counters = [];
}

abbrev input : CreateLinkInput
input = record {
  code = codes "abcd";
  target_url = codes "https://example.com/";
  expires_at = some 90;
  code_source = generated;
}

abbrev alias : CreateLinkInput
alias = record input { code_source = custom }

abbrev stringify : Map Field → Text
stringify fields = codes "link"

abbrev to_iso : ℕ → Text
to_iso t = t ∷ []

create_generated_lem_example :
    let r = create_generated memory 3 stringify to_iso true replies input 7 world in
    (r.0.redis 3 ≡ empty_shard)
    × (Existed memory 3 stringify to_iso input world r
        ⊎ (Delegated memory 3 stringify to_iso input world r
            ⊎ Queued memory 3 stringify to_iso input 7 world r))
unfolding shard_of fnv1a32
create_generated_lem_example =
    create_generated_lem memory 3 stringify to_iso input 7 world 3 (λ e. omega (arith, e))

create_custom-create_generated_example :
    let r = create_generated memory 3 stringify to_iso true replies input 7 world in
    create_custom memory true replies alias r.0 ≡ (r.0, ok none)
unfolding get
create_custom-create_generated_example =
    create_custom-create_generated memory 3 stringify to_iso input alias 7 world refl refl
      (omega arith)

abbrev requests : List (Request)
requests =
    (record { is_ready = true; call = loses_reply; input = input; now = 7 })
    ∷ (record { is_ready = true; call = replies; input = alias; now = 8 })
    ∷ []

run-Bounded_example : length ((run memory 3 stringify to_iso world requests).redis 445).queue ≤ 3
run-Bounded_example = run-Bounded memory 3 stringify to_iso world requests (λ n. omega arith) 445
