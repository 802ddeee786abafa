-- ===== src/Scrambler.antt =====
-- src/domain/code-allocator.ts: `CodeScrambler`, the keyed Feistel permutation over [0, 62^9).
-- A 32-bit integer is its bit pattern below 2 ^ 32, signed or not: `^`, `>>>`, `&` and `Math.imul`
-- read their arguments' patterns only. A half is an integer below 2 ^ 27.
pub mod Walk
pub mod Feistel
pub mod Permute
pub mod Encode
mod Tests
use wrap_link.Prelude.{
  ℕ, zero, suc, ◌+◌, ◌*◌, ◌/◌, ◌%◌, ◌^◌, ◌-◌, ◌<◌, ◌||◌, ◌&&◌, Bool, true, false, List, [], ◌∷◌,
  ◌++◌, Option, none, some, Text, codes, length, get_or, Result, ok, throw, map_ok, ℤ, pos, negsuc,
  bit_and, bit_xor, ltb, ◌==◌, if◌then◌else◌,
}
use mathlib.Core.Option
use wrap_link.Base62.{digit_char, allocated_code_length, allocated_code_space}

abbrev pub half_bits : ℕ
half_bits = 27

abbrev pub half_size : ℕ
half_size = 2 ^ half_bits

abbrev pub half_mask : ℕ
half_mask = half_size - 1

abbrev pub feistel_rounds : ℕ
feistel_rounds = 8

abbrev pub space_high : ℕ
space_high = allocated_code_space / half_size

abbrev pub space_low : ℕ
space_low = allocated_code_space % half_size

-- `[high, low]`
abbrev pub Halves : Type 0
Halves = ℕ × ℕ

unfoldable pub inside_code_space : Halves → Bool
inside_code_space (high, low) = ltb high space_high || high == space_high && ltb low space_low

-- The operators of JavaScript on 32-bit patterns.
abbrev pub u32 : ℕ → ℕ
u32 x = x % 2 ^ 32

abbrev pub xor32 : ℕ → ℕ → ℕ
xor32 a b = bit_xor (u32 a) (u32 b)

abbrev pub and32 : ℕ → ℕ → ℕ
and32 a b = bit_and (u32 a) (u32 b)

abbrev pub shr32 : ℕ → ℕ → ℕ
shr32 a k = u32 a / 2 ^ k

abbrev pub imul : ℕ → ℕ → ℕ
imul a b = u32 (u32 a * u32 b)

pub record CodeScrambler : Type 0 where
  pub round_keys : List ℕ

-- `material.readUInt32BE(offset)`
abbrev read_u32_be : List ℕ → ℕ → ℕ
read_u32_be bytes offset =
    get_or bytes offset 0 * 2 ^ 24
    + get_or bytes (offset + 1) 0 * 2 ^ 16
    + get_or bytes (offset + 2) 0 * 2 ^ 8
    + get_or bytes (offset + 3) 0

-- The loop that fills `roundKeys`.
read_keys : ℕ → ℕ → List ℕ → List ℕ
read_keys zero index material = []
read_keys (suc n) index material =
    read_u32_be material (index * 4) ∷ read_keys n (index + 1) material

-- `hmac secret message` is the HMAC-SHA256 digest.
unfoldable pub new_scrambler : (Text → Text → List ℕ) → Text → Result CodeScrambler
unfolding read_keys
new_scrambler hmac [] = throw "scramble secret must not be empty"
new_scrambler hmac (c ∷ secret) = ok (record {
  round_keys = read_keys (feistel_rounds * 2) 0 (
      hmac (c ∷ secret) (codes "wraplink-feistel-keys-0")
      ++ hmac (c ∷ secret) (codes "wraplink-feistel-keys-1"));
})

unfoldable pub round : ℕ → ℕ → ℕ → ℕ
round half key_a key_b =
    let h1 = xor32 half key_a in
    let h2 = imul (xor32 h1 (shr32 h1 16)) 0x85ebca6b in
    let h3 = imul (xor32 h2 (shr32 h2 13)) 0xc2b2ae35 in
    let h4 = xor32 h3 (shr32 h3 16) in
    let h5 = imul (xor32 h4 key_b) 0x9e3779b1 in and32 (xor32 h5 (shr32 h5 15)) half_mask

-- The body of the loop of `feistel`, at round `r`.
unfoldable pub mix : CodeScrambler → ℕ → Halves → Halves
mix s r (left, right) = (
  right,
  and32
      (xor32 left (round right (get_or s.round_keys (r * 2) 0) (get_or s.round_keys (r * 2 + 1) 0)))
      half_mask,
)

unfoldable pub mix_rounds : CodeScrambler → ℕ → ℕ → Halves → Halves
mix_rounds s zero r halves = halves
mix_rounds s (suc n) r halves = mix_rounds s n (r + 1) (mix s r halves)

unfoldable pub feistel : CodeScrambler → Halves → Halves
unfolding mix_rounds
feistel s = mix_rounds s feistel_rounds 0

-- The `while` loop of `permuteHalves`; `none` means that the fuel ran out.
unfoldable pub walk : CodeScrambler → ℕ → Halves → Option Halves
walk s zero halves = none
walk s (suc fuel) halves = elim (inside_code_space halves) [
  | true ↦ some halves
  | false ↦ walk s fuel (feistel s halves)
]

pub walk_fuel : ℕ
walk_fuel = half_size * half_size

unfoldable pub permute_halves : CodeScrambler → Halves → Option Halves
permute_halves s halves = walk s walk_fuel (feistel s halves)

abbrev pub split_id : ℕ → Halves
split_id id = (id / half_size, id % half_size)

abbrev pub join : Halves → ℕ
join (high, low) = high * half_size + low

unfoldable pub permute : CodeScrambler → ℤ → Option (Result ℕ)
permute s (negsuc n) = some (throw "id is outside the code space")
permute s (pos id) =
    if ltb id allocated_code_space
    then Option.map (λ halves. ok (join halves)) (permute_halves s (split_id id))
    else some (throw "id is outside the code space")

-- The loop of `encode`: Base62 digits of a number held in two halves.
unfoldable pub encode_halves : ℕ → Halves → Text → Text
encode_halves zero (high, low) characters = characters
encode_halves (suc n) (high, low) characters =
    let combined = high % 62 * half_size + low in
    encode_halves n (high / 62, combined / 62) (digit_char (combined % 62) ∷ characters)

unfoldable pub encode : CodeScrambler → ℤ → Option (Result Text)
encode s (negsuc n) = some (throw "id is outside the code space")
encode s (pos id) =
    if ltb id allocated_code_space
    then Option.map (λ halves. ok (encode_halves allocated_code_length halves []))
        (permute_halves s (split_id id))
    else some (throw "id is outside the code space")
