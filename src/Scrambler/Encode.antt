-- ===== src/Scrambler/Encode.antt =====
-- `encode`, the request path's division on two halves, against the reference encoder, and the codes
-- that it makes.
use mathlib.Core.Option
use mathlib.Core.Path.{ap₂}
use native.Mathlib.Omega.{arith}
use wrap_link.Prelude.{
  ℕ, zero, suc, ◌+◌, ◌*◌, ◌/◌, ◌%◌, ◌<◌, ◌^◌, ◌≡◌, refl, sym, ap, ◌∙◌, ◌≢◌, true, Option, some, [],
  ◌∷◌, Text, length, all, Result, ok, ◌>>=◌, ℤ, pos, negsuc, ltb, Bool-cases, inl, inr, ltb→lt,
  lt→ltb,
}
use wrap_link.Base62.{
  allocated_code_space, digit_char, fill, encode_base62_fixed, allocated_code_length,
}
use wrap_link.Base62.Laws.{fill_rest_fits, numeral, is_alphanumeric, encode_base62_fixed_round_trip}
use wrap_link.Scrambler.{Halves, CodeScrambler, half_size, join, permute, encode_halves, encode}
use wrap_link.Scrambler.Permute.{split_total, permute_total, permute_injective}

-- Division of the two-part number is division of the number; `low` need not be below `half_size`.
encode_halves-fill :
    (n : ℕ) (x : Halves) (cs : Text) → encode_halves n x cs ≡ (fill n (join x) cs).0
unfolding encode_halves fill
encode_halves-fill zero (high, low) cs = refl
encode_halves-fill (suc n) (high, low) cs =
    let combined = high % 62 * half_size + low in
    let rest : join (high / 62, combined / 62) ≡ join (high, low) / 62 = omega arith in
    let digit : combined % 62 ≡ join (high, low) % 62 = omega arith in
    encode_halves-fill n (high / 62, combined / 62) (digit_char (combined % 62) ∷ cs)
    ∙ ap₂ (λ v d. (fill n v (digit_char d ∷ cs)).0) rest digit

-- The combined number of one step is a safe integer, so the source's floating-point arithmetic is
-- exact.
pub combined_safe : (high low : ℕ) → low < half_size → high % 62 * half_size + low < 2 ^ 53
combined_safe high low h = omega arith

encode_at :
    (s : CodeScrambler) (id : ℕ)
    → id < allocated_code_space
    → encode s (pos id)
      ≡ Option.map
          (λ r. r >>= λ v. encode_base62_fixed (pos v) allocated_code_length)
          (permute s (pos id))
unfolding encode permute encode_base62_fixed
encode_at s id h =
    let (y, run, _, below) = split_total s id h in
    rw (lt→ltb _ _ h, run)
      (rw (encode_halves-fill allocated_code_length y [], fill_rest_fits 9 (join y) [] below) refl)

-- On every id, in the code space or not, `encode` returns what the reference encoder makes of the
-- id's image under `permute`, or throws what `permute` throws.
pub encode-permute :
    (s : CodeScrambler) (id : ℤ)
    → encode s id
      ≡ Option.map
          (λ r. r >>= λ v. encode_base62_fixed (pos v) allocated_code_length)
          (permute s id)
unfolding encode permute
encode-permute s (negsuc n) = refl
encode-permute s (pos id) = elim (Bool-cases (ltb id allocated_code_space)) [
  | inl inside ↦ encode_at s id (ltb→lt _ _ inside)
  | inr outside ↦ rw outside
]

-- What `encode` returns for an id of the code space: the numeral of the id's image.
pub encode_ok :
    (s : CodeScrambler) (id : ℕ)
    → id < allocated_code_space
    → (cs : Text) × (encode s (pos id) ≡ some (ok cs))
      × (permute s (pos id) ≡ some (ok (numeral 0 cs)))
      × (length cs ≡ 9)
      × (all is_alphanumeric cs ≡ true)
encode_ok s id h =
    let (v, run, below) = permute_total s id h in
    let (cs, written, value, size, chars) = encode_base62_fixed_round_trip v 9 below in
    (cs, encode-permute s (pos id) ∙ rw (run, written) refl, rw value run, size, chars)

same_code : {cs ds : Text} → ◌≡◌ {A = Option (Result Text)} (some (ok cs)) (some (ok ds)) → cs ≡ ds
same_code e = cc

pub encode_injective :
    (s : CodeScrambler) (id other : ℕ)
    → id < allocated_code_space
    → other < allocated_code_space
    → encode s (pos id) ≡ encode s (pos other)
    → id ≡ other
encode_injective s id other h k e =
    let (cs, run, image, _, _) = encode_ok s id h in
    let (ds, run', image', _, _) = encode_ok s other k in
    permute_injective s id other h k
      (image ∙ ap (λ c. some (ok (numeral 0 c))) (same_code (sym run ∙ e ∙ run')) ∙ sym image')

-- For two different ids of the code space `encode` returns two different codes, each of exactly 9
-- letters and digits.
pub encode_unique :
    (s : CodeScrambler) (id other : ℕ)
    → id < allocated_code_space
    → other < allocated_code_space
    → id ≢ other
    → (cs ds : Text) × (encode s (pos id) ≡ some (ok cs))
      × (encode s (pos other) ≡ some (ok ds))
      × (cs ≢ ds)
      × (length cs ≡ 9)
      × (length ds ≡ 9)
      × (all is_alphanumeric cs ≡ true)
      × (all is_alphanumeric ds ≡ true)
encode_unique s id other h k distinct =
    let (cs, run, _, size, chars) = encode_ok s id h in
    let (ds, run', _, size', chars') = encode_ok s other k in
    (
      cs,
      ds,
      run,
      run',
      λ e. distinct (encode_injective s id other h k (run ∙ ap (λ c. some (ok c)) e ∙ sym run')),
      size,
      size',
      chars,
      chars',
    )
