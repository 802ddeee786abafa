-- ===== src/Base62/Laws.antt =====
-- The encoder against the value of a numeral: what it writes reads back, and when it refuses.
use wrap_link.Prelude.{
  ℕ, zero, suc, ◌+◌, ◌-◌, ◌*◌, ◌/◌, ◌%◌, ◌^◌, ◌≤◌, ◌<◌, ◌≡◌, refl, sym, ap, ◌∙◌, Bool, true, ◌&&◌,
  [], ◌∷◌, Text, length, all, ok, throw, pos, negsuc, arith, all_below, all_below_sound, leb, ◌==◌,
  ==_iff, if◌then◌else◌,
}
use native.Mathlib.Nat.{pow-suc}
use wrap_link.Base62.{digit_char, fill, encode_base62_fixed}

-- The value of one character, by the three ranges of the alphabet.
pub char_digit : ℕ → ℕ
char_digit c = if leb c b'9' then c - b'0' else if leb c b'Z' then c - b'A' + 10 else c - b'a' + 36

pub is_alphanumeric : ℕ → Bool
is_alphanumeric c =
    if leb c b'9' then leb b'0' c else if leb c b'Z' then leb b'A' c else leb b'a' c && leb c b'z'

-- A numeral read from its first character on.
pub numeral : ℕ → Text → ℕ
numeral acc [] = acc
numeral acc (c ∷ cs) = numeral (acc * 62 + char_digit c) cs

char_digit_table : all_below 62 (λ d. char_digit (digit_char d) == d) ≡ true
unfolding all_below char_digit digit_char
char_digit_table = refl

pub char_digit-digit_char : (d : ℕ) → d < 62 → char_digit (digit_char d) ≡ d
char_digit-digit_char d h = (==_iff _ d).0 (all_below_sound 62 _ d char_digit_table h)

-- What the loop wrote and what it has left make up the value that it began with.
pub fill_value : (n r : ℕ) (cs : Text) → numeral (fill n r cs).1 (fill n r cs).0 ≡ numeral r cs
unfolding fill numeral
fill_value zero r cs = refl
fill_value (suc n) r cs =
    fill_value n (r / 62) (digit_char (r % 62) ∷ cs)
    ∙ ap (λ acc. numeral acc cs) (omega (arith, char_digit-digit_char (r % 62) (omega arith)))

pub length-fill : (n r : ℕ) (cs : Text) → length (fill n r cs).0 ≡ n + length cs
unfolding fill
length-fill zero r cs = omega arith
length-fill (suc n) r cs = omega (arith, length-fill n (r / 62) (digit_char (r % 62) ∷ cs))

pub fill_rest_fits : (n r : ℕ) (cs : Text) → r < 62 ^ n → (fill n r cs).1 ≡ 0
unfolding fill
fill_rest_fits zero r cs h = omega arith
fill_rest_fits (suc n) r cs h =
    fill_rest_fits n (r / 62) (digit_char (r % 62) ∷ cs) (omega (arith, pow-suc 62 n))

pub fill_rest_exceeds : (n r : ℕ) (cs : Text) → 62 ^ n ≤ r → 0 < (fill n r cs).1
unfolding fill
fill_rest_exceeds zero r cs h = omega arith
fill_rest_exceeds (suc n) r cs h =
    fill_rest_exceeds n (r / 62) (digit_char (r % 62) ∷ cs) (omega (arith, pow-suc 62 n))

digit_char_table : all_below 62 (λ d. is_alphanumeric (digit_char d)) ≡ true
unfolding all_below is_alphanumeric digit_char
digit_char_table = refl

pub fill_alphanumeric :
    (n r : ℕ) (cs : Text)
    → all is_alphanumeric cs ≡ true
    → all is_alphanumeric (fill n r cs).0 ≡ true
unfolding fill
fill_alphanumeric zero r cs h = h
fill_alphanumeric (suc n) r cs h =
    fill_alphanumeric n (r / 62) (digit_char (r % 62) ∷ cs)
      (ground (arith, all_below_sound 62 _ (r % 62) digit_char_table (omega arith)))

-- For a value below 62 ^ length the encoder returns exactly `length` letters and digits whose
-- reading as a Base62 numeral is the value.
pub encode_base62_fixed_round_trip :
    (value length' : ℕ)
    → value < 62 ^ length'
    → (cs : Text) × (encode_base62_fixed (pos value) length' ≡ ok cs)
      × (numeral 0 cs ≡ value)
      × (length cs ≡ length')
      × (all is_alphanumeric cs ≡ true)
unfolding encode_base62_fixed numeral
encode_base62_fixed_round_trip value n h =
    let rest = fill_rest_fits n value [] h in
    (
      (fill n value []).0,
      rw rest refl,
      ap (λ acc. numeral acc (fill n value []).0) (sym rest) ∙ fill_value n value [],
      omega (arith, length-fill n value []),
      fill_alphanumeric n value [] refl,
    )

-- The encoder throws on every negative value, and on every value of 62 ^ length or more, each with
-- its own message.
pub encode_base62_fixed_throws :
    (n value length' : ℕ)
    → 62 ^ length' ≤ value
    → (encode_base62_fixed (negsuc n) length' ≡ throw "value must be non-negative")
      × (encode_base62_fixed (pos value) length'
          ≡ throw "value does not fit in the requested length")
unfolding encode_base62_fixed
encode_base62_fixed_throws n value length' h =
    (refl, ground (arith, fill_rest_exceeds length' value [] h))
