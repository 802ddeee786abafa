-- ===== src/Keys/Tags.antt =====
-- The tags that put a link's keys on one node of a Redis Cluster.
use wrap_link.Prelude.{
  ℕ, ◌+◌, ◌*◌, ◌/◌, ◌%◌, ◌^◌, ◌<◌, ◌≡◌, refl, sym, ap, ◌∙◌, true, false, [], ◌∷◌, ◌++◌, Option,
  none, some, Text, codes, text_eq, text_eq_iff, Result, ok, pos, integer, is_safe_integer,
  at_least, nat_value, lt→ltb, le→leb, ◌==◌, ◌≢◌, length, drop, get_or, if◌then◌else◌, all_below,
  all_below_sound, arith,
}
use wrap_link.Keys.{
  link_key_shards, shard_of, decimal, pad_start, shard_tag, link_key, sync_queue_key, sync_lock_key,
  sync_dead_letter_key,
}

-- Redis Cluster's rule: what stands between the first `{` and the next `}` is hashed if it is not
-- empty, and the whole key otherwise.
abbrev pub up_to_close : Text → Option Text
up_to_close [] = none
up_to_close (c ∷ s) =
    let rest = up_to_close s in
    if c == b'}' then some [] else elim rest [ none ↦ none | some t ↦ some (c ∷ t) ]

abbrev pub after_open : Text → Option Text
after_open [] = none
after_open (c ∷ s) = if c == b'{' then some s else after_open s

abbrev pub tag_between : Text → Option Text → Text
tag_between key none = key
tag_between key (some []) = key
tag_between key (some (c ∷ t)) = c ∷ t

abbrev pub tag_in : Text → Option Text → Text
tag_in key none = key
tag_in key (some s) = tag_between key (up_to_close s)

abbrev pub hash_tag : Text → Text
hash_tag key = tag_in key (after_open key)

-- The four decimal digits of a number below 10,000.
abbrev pub four_digits : ℕ → Text
four_digits n =
    (b'0' + n / 1000) ∷ (b'0' + n / 100 % 10) ∷ (b'0' + n / 10 % 10) ∷ (b'0' + n % 10) ∷ []

padded_table :
    all_below link_key_shards (λ n. text_eq (pad_start 4 b'0' (decimal n)) (four_digits n)) ≡ true
unfolding all_below text_eq pad_start decimal
padded_table = refl

padded : (n : ℕ) → n < link_key_shards → pad_start 4 b'0' (decimal n) ≡ four_digits n
padded n h = (text_eq_iff _ _).0 (all_below_sound link_key_shards _ n padded_table h)

abbrev tag : ℕ → Text
tag n = b'{' ∷ four_digits n ++ b'}' ∷ []

shard_tag-tag : (n : ℕ) → n < link_key_shards → shard_tag (integer (pos n)) ≡ ok (tag n)
unfolding shard_tag is_safe_integer at_least nat_value
shard_tag-tag n h = rw (
  lt→ltb n (2 ^ 53) (omega arith),
  lt→ltb n link_key_shards h,
  le→leb 0 n (omega arith),
  padded n h,
)

shard_of-lt : (code : Text) → shard_of code < link_key_shards
unfolding shard_of
shard_of-lt code = omega arith

no_brace : (d : ℕ) → d < 10 → (b'0' + d == b'}') ≡ false
no_brace d h = ground arith

up_to_close-tag :
    (n : ℕ) (rest : Text)
    → n < link_key_shards
    → up_to_close (four_digits n ++ b'}' ∷ rest) ≡ some (four_digits n)
up_to_close-tag n rest h =
    rw
      (
        no_brace (n / 1000) (omega arith),
        no_brace (n / 100 % 10) (omega arith),
        no_brace (n / 10 % 10) (omega arith),
        no_brace (n % 10) (omega arith),
      )
      refl

-- Where the tag stands first among the braces, it is what Redis hashes.
hash_tag-tag :
    (key : Text) (n : ℕ) (rest : Text)
    → n < link_key_shards
    → after_open key ≡ some (four_digits n ++ b'}' ∷ rest)
    → hash_tag key ≡ four_digits n
hash_tag-tag key n rest h e = ap (tag_in key) e ∙ ap (tag_between key) (up_to_close-tag n rest h)

-- For every code the four keys exist, and a Redis Cluster that chooses the node by the hash tag
-- keeps the link, the queue of its shard, that queue's lock and its dead letters on one node.
pub keys_share_node :
    (slot : Text → ℕ)
    → ((key key' : Text) → hash_tag key ≡ hash_tag key' → slot key ≡ slot key')
    → (code : Text)
    → let shard = integer (pos (shard_of code)) in
      (link queue lock dead : Text) × (link_key code ≡ ok link)
      × (sync_queue_key shard ≡ ok queue)
      × (sync_lock_key shard ≡ ok lock)
      × (sync_dead_letter_key shard ≡ ok dead)
      × (slot link ≡ slot queue)
      × (slot lock ≡ slot queue)
      × (slot dead ≡ slot queue)
unfolding link_key sync_queue_key sync_lock_key sync_dead_letter_key
keys_share_node slot by_tag code =
    let n = shard_of code in
    let h = shard_of-lt code in
    let t = shard_tag-tag n h in
    let link = codes "wraplink:link:" ++ tag n ++ codes ":" ++ code in
    let queue = codes "wraplink:sync:queue:" ++ tag n in
    let lock = codes "wraplink:sync:lock:" ++ tag n in
    let dead = codes "wraplink:sync:dead:" ++ tag n in
    let queued = hash_tag-tag queue n [] h refl in
    (
      link,
      queue,
      lock,
      dead,
      rw t refl,
      rw t refl,
      rw t refl,
      rw t refl,
      by_tag link queue (hash_tag-tag link n (codes ":" ++ code) h refl ∙ sym queued),
      by_tag lock queue (hash_tag-tag lock n [] h refl ∙ sym queued),
      by_tag dead queue (hash_tag-tag dead n [] h refl ∙ sym queued),
    )

link_key-text :
    (code : Text)
    → link_key code ≡ ok (codes "wraplink:link:" ++ tag (shard_of code) ++ codes ":" ++ code)
unfolding link_key
link_key-text code = rw (shard_tag-tag (shard_of code) (shard_of-lt code)) refl

after_tag :
    (m n : ℕ) (s t : Text)
    → codes "wraplink:link:" ++ tag m ++ codes ":" ++ s
      ≡ codes "wraplink:link:" ++ tag n ++ codes ":" ++ t
    → s ≡ t
after_tag m n s t e = ap (drop 21) e

ok_injective : {s t : Text} → ◌≡◌ {A = Result Text} (ok s) (ok t) → s ≡ t
ok_injective e = cc

-- Links with different codes have different keys.
pub link_key_injective : (code code' : Text) → code ≢ code' → link_key code ≢ link_key code'
link_key_injective code code' distinct e = distinct (
    after_tag (shard_of code) (shard_of code') code code'
      (ok_injective (sym (link_key-text code) ∙ e ∙ link_key-text code')))

same_number : (m n : ℕ) → m < link_key_shards → n < link_key_shards → tag m ≡ tag n → m ≡ n
same_number m n h k e =
    let value =
      λ (t : Text). get_or t 1 0 * 1000 + get_or t 2 0 * 100 + get_or t 3 0 * 10 + get_or t 4 0 in
    omega (arith, ap value e)

-- Two shards below 1,024 have tags of six characters, and different ones for different shards.
pub shard_tag_shape :
    (m n : ℕ)
    → m < link_key_shards
    → n < link_key_shards
    → m ≢ n
    → (s t : Text) × (shard_tag (integer (pos m)) ≡ ok s)
      × (shard_tag (integer (pos n)) ≡ ok t)
      × (length s ≡ 6)
      × (s ≢ t)
shard_tag_shape m n h k distinct = (
  tag m,
  tag n,
  shard_tag-tag m h,
  shard_tag-tag n k,
  refl,
  λ e. distinct (same_number m n h k e),
)
