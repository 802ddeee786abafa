-- ===== src/Keys/Tests.antt =====
-- The shared vectors of test/fixtures/shard-vectors.json, and the theorems at inputs that meet
-- their hypotheses.
use wrap_link.Prelude.{
  ℕ, ◌≡◌, ◌↔◌, refl, ap, ◌<◌, ◌%◌, List, [], ◌∷◌, Text, codes, ok, integer, pos, is_safe_integer,
  at_least, nat_value, arith, In, AllDistinct,
}
use wrap_link.Keys.{
  link_key_shards, fnv1a32, shard_of, decimal, pad_start, shard_tag, link_key, sync_queue_key,
  sync_lock_key, sync_dead_letter_key, shards_for_worker,
}
use wrap_link.Keys.Tags.{hash_tag, keys_share_node}
use wrap_link.Keys.Workers.{shards_for_worker_iff}

fnv1a32_docs : fnv1a32 (codes "docs") ≡ 686503122
unfolding fnv1a32
fnv1a32_docs = refl

fnv1a32_short : fnv1a32 (codes "0000000001") ≡ 1568696410
unfolding fnv1a32
fnv1a32_short = refl

shard_of_home : shard_of (codes "home") ≡ 654
unfolding shard_of fnv1a32
shard_of_home = refl

link_key_abcd : link_key (codes "abcd") ≡ ok (codes "wraplink:link:{0445}:abcd")
unfolding link_key shard_of fnv1a32 shard_tag is_safe_integer at_least nat_value pad_start decimal
link_key_abcd = refl

-- The first code of a tag, as a node number.
abbrev first_code : Text → ℕ
first_code [] = 0
first_code (c ∷ s) = c

abbrev node : Text → ℕ
node key = first_code (hash_tag key)

keys_share_node_example :
    let shard = integer (pos (shard_of (codes "abcd"))) in
    (link queue lock dead : Text) × (link_key (codes "abcd") ≡ ok link)
    × (sync_queue_key shard ≡ ok queue)
    × (sync_lock_key shard ≡ ok lock)
    × (sync_dead_letter_key shard ≡ ok dead)
    × (node link ≡ node queue)
    × (node lock ≡ node queue)
    × (node dead ≡ node queue)
keys_share_node_example = keys_share_node node (λ key key' e. ap first_code e) (codes "abcd")

shards_for_worker_iff_example :
    (shards : List ℕ) × (shards_for_worker (integer (pos 2)) (integer (pos 500)) ≡ ok shards)
    × AllDistinct shards
    × (In 1002 shards ↔ ((1002 < link_key_shards) × (1002 % 500 ≡ 2)))
shards_for_worker_iff_example = shards_for_worker_iff 2 500 1002 (omega arith) (omega arith)
