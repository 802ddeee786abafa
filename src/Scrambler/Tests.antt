-- ===== src/Scrambler/Tests.antt =====
-- The scrambler at concrete keys, and the theorems at inputs that meet their hypotheses.
use mathlib.Core.Option
use wrap_link.Prelude.{
  ℕ, ◌≡◌, ◌≢◌, ◌<◌, [], ◌∷◌, some, ok, Text, length, all, true, pos, arith, ◌>>=◌,
}
use wrap_link.Base62.{allocated_code_space, allocated_code_length, encode_base62_fixed}
use wrap_link.Base62.Laws.{is_alphanumeric}
use wrap_link.Scrambler.{CodeScrambler, permute, encode, feistel}
use wrap_link.Scrambler.Feistel.{InRange, unfeistel, unfeistel-feistel}
use wrap_link.Scrambler.Permute.{permute_total}
use wrap_link.Scrambler.Encode.{encode-permute, encode_unique}

abbrev keys : CodeScrambler
keys = record { round_keys = 0x12345678 ∷ 0x9abcdef0 ∷ 3 ∷ 5 ∷ [] }

unfeistel-feistel_example :
    (unfeistel keys (feistel keys (5, 7)) ≡ (5, 7)) × InRange (feistel keys (5, 7))
unfeistel-feistel_example = unfeistel-feistel keys (5, 7) (omega arith)

permute_total_example : (y : ℕ) × (permute keys (pos 7) ≡ some (ok y)) × (y < allocated_code_space)
permute_total_example = permute_total keys 7 (omega arith)

encode-permute_example :
    encode keys (pos 7)
    ≡ Option.map
        (λ r. r >>= λ v. encode_base62_fixed (pos v) allocated_code_length)
        (permute keys (pos 7))
encode-permute_example = encode-permute keys (pos 7)

encode_unique_example :
    (cs ds : Text) × (encode keys (pos 0) ≡ some (ok cs))
    × (encode keys (pos 1) ≡ some (ok ds))
    × (cs ≢ ds)
    × (length cs ≡ 9)
    × (length ds ≡ 9)
    × (all is_alphanumeric cs ≡ true)
    × (all is_alphanumeric ds ≡ true)
encode_unique_example = encode_unique keys 0 1 (omega arith) (omega arith) (omega arith)
