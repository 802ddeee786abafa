-- ===== src/Keys.antt =====
-- src/cache/keys.ts: the shard of a code, the Redis keys, and the shards of a worker.
pub mod Tags
pub mod Workers
mod Tests
use wrap_link.Prelude.{
  ℕ, zero, suc, ◌+◌, ◌-◌, ◌*◌, ◌/◌, ◌%◌, ◌^◌, Bool, true, false, ◌&&◌, List, [], ◌∷◌, ◌++◌, bit_xor,
  Text, codes, length, replicate, Result, ok, throw, ◌>>=◌, ◌>>◌, guard, ℤ, pos, negsuc, JsNumber,
  integer, other, is_safe_integer, at_least, nat_value, ltb, leb, if◌then◌else◌,
}

abbrev pub link_key_shards : ℕ
link_key_shards = 1024

abbrev pub fnv_offset_basis : ℕ
fnv_offset_basis = 0x811c9dc5

abbrev pub fnv_prime : ℕ
fnv_prime = 0x01000193

is_surrogate : ℕ → Bool
is_surrogate c = leb 0xd800 c && leb c 0xdfff

-- The bytes of one code point.
utf8_point : ℕ → List ℕ
utf8_point c =
    if ltb c 0x80
    then c ∷ []
    else if ltb c 0x800
    then (0xc0 + c / 2 ^ 6) ∷ (0x80 + c % 2 ^ 6) ∷ []
    else if ltb c 0x10000
    then (0xe0 + c / 2 ^ 12) ∷ (0x80 + c / 2 ^ 6 % 2 ^ 6) ∷ (0x80 + c % 2 ^ 6) ∷ []
    else (0xf0 + c / 2 ^ 18)
      ∷ (0x80 + c / 2 ^ 12 % 2 ^ 6)
      ∷ (0x80 + c / 2 ^ 6 % 2 ^ 6)
      ∷ (0x80 + c % 2 ^ 6)
      ∷ []

is_pair : ℕ → ℕ → Bool
is_pair c d = leb 0xd800 c && leb c 0xdbff && leb 0xdc00 d && leb d 0xdfff

-- `Buffer.from(value, "utf8")`: a surrogate without its partner is written as U+FFFD.
unfoldable pub utf8 : Text → List ℕ
unfolding utf8_point is_surrogate is_pair
utf8 [] = []
utf8 (c ∷ []) = utf8_point (if is_surrogate c then 0xfffd else c)
utf8 (c ∷ d ∷ s) =
    let apart = utf8_point (if is_surrogate c then 0xfffd else c) ++ utf8 (d ∷ s) in
    let joined = utf8_point (0x10000 + (c - 0xd800) * 2 ^ 10 + (d - 0xdc00)) ++ utf8 s in
    if is_pair c d then joined else apart

-- One round of the loop of `fnv1a32`, on 32-bit patterns.
unfoldable pub fnv_round : ℕ → ℕ → ℕ
fnv_round hash byte = bit_xor hash byte * fnv_prime % 2 ^ 32

fnv_loop : ℕ → List ℕ → ℕ
fnv_loop hash [] = hash
fnv_loop hash (byte ∷ bytes) = fnv_loop (fnv_round hash byte) bytes

unfoldable pub fnv1a32 : Text → ℕ
unfolding fnv_loop fnv_round utf8
fnv1a32 value = fnv_loop fnv_offset_basis (utf8 value)

unfoldable pub shard_of : Text → ℕ
shard_of code = fnv1a32 code % link_key_shards

-- `String(n)` of a natural number: the digits before those in `rest`.
decimal_before : ℕ → ℕ → Text → Text
decimal_before zero n rest = rest
decimal_before (suc fuel) n rest =
    let more = decimal_before fuel (n / 10) ((b'0' + n % 10) ∷ rest) in
    if ltb n 10 then (b'0' + n) ∷ rest else more

unfoldable pub decimal : ℕ → Text
unfolding decimal_before
decimal n = decimal_before (suc n) n []

unfoldable pub pad_start : ℕ → ℕ → Text → Text
pad_start width c s = replicate (width - length s) c ++ s

-- The message of the source ends with the number.
unfoldable pub shard_tag : JsNumber → Result Text
shard_tag shard = do
  guard (is_safe_integer shard && at_least 0 shard && ltb (nat_value shard) link_key_shards)
      "invalid shard"
  ok (b'{' ∷ pad_start 4 b'0' (decimal (nat_value shard)) ++ b'}' ∷ [])

unfoldable pub link_key : Text → Result Text
link_key code = do
  tag ← shard_tag (integer (pos (shard_of code)))
  ok (codes "wraplink:link:" ++ tag ++ codes ":" ++ code)

unfoldable pub sync_queue_key : JsNumber → Result Text
sync_queue_key shard = do tag ← shard_tag shard; ok (codes "wraplink:sync:queue:" ++ tag)

unfoldable pub sync_lock_key : JsNumber → Result Text
sync_lock_key shard = do tag ← shard_tag shard; ok (codes "wraplink:sync:lock:" ++ tag)

unfoldable pub sync_dead_letter_key : JsNumber → Result Text
sync_dead_letter_key shard = do tag ← shard_tag shard; ok (codes "wraplink:sync:dead:" ++ tag)

-- The loop of `shardsForWorker` from `shard` on; `fuel` bounds the rounds.
unfoldable pub shards_from : ℕ → ℕ → ℕ → List ℕ
shards_from zero shard worker_count = []
shards_from (suc fuel) shard worker_count =
    let rest = shards_from fuel (shard + worker_count) worker_count in
    if ltb shard link_key_shards then shard ∷ rest else []

unfoldable pub shards_for_worker : JsNumber → JsNumber → Result (List ℕ)
shards_for_worker worker_index worker_count = do
  guard
      (is_safe_integer worker_count
        && at_least 1 worker_count
        && is_safe_integer worker_index
        && at_least 0 worker_index
        && ltb (nat_value worker_index) (nat_value worker_count))
      "worker index must be within [0, workerCount)"
  ok (shards_from (suc link_key_shards) (nat_value worker_index) (nat_value worker_count))

unfoldable pub all_shards : Result (List ℕ)
all_shards = shards_for_worker (integer (pos 0)) (integer (pos 1))
