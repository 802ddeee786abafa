-- ===== src/Base62/Tests.antt =====
-- The encoder at concrete values, and the theorems at inputs that meet their hypotheses.
use wrap_link.Prelude.{◌≡◌, refl, Text, codes, length, all, ok, pos, true, arith}
use wrap_link.Base62.{encode_base62_fixed, fill, digit_char}
use wrap_link.Base62.Laws.{numeral, is_alphanumeric, encode_base62_fixed_round_trip}

encode_61 : encode_base62_fixed (pos 61) 3 ≡ ok (codes "00z")
unfolding encode_base62_fixed fill digit_char
encode_61 = refl

encode_base62_fixed_round_trip_example :
    (cs : Text) × (encode_base62_fixed (pos 3843) 2 ≡ ok cs)
    × (numeral 0 cs ≡ 3843)
    × (length cs ≡ 2)
    × (all is_alphanumeric cs ≡ true)
encode_base62_fixed_round_trip_example = encode_base62_fixed_round_trip 3843 2 (omega arith)
