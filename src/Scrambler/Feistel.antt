-- ===== src/Scrambler/Feistel.antt =====
-- The Feistel network: it keeps halves in range, and the inverse network undoes it for any round
-- keys.
use wrap_link.Prelude.{
  ℕ, zero, suc, ◌+◌, ◌*◌, ◌%◌, ◌^◌, ◌<◌, ◌≡◌, refl, sym, ap, ◌∙◌, bit_xor, get_or, arith,
}
use wrap_link.Prelude.Bits.{bit_xor_twice, bit_xor-lt, bit_and_mask}
use wrap_link.Scrambler.{
  Halves, CodeScrambler, half_size, half_mask, feistel_rounds, u32, xor32, and32, round, mix,
  mix_rounds, feistel,
}

abbrev pub InRange : Halves → Type 0
InRange s = (s.0 < half_size) × (s.1 < half_size)

pub and32-lt : (x : ℕ) → and32 x half_mask < half_size
and32-lt x = omega (arith, bit_and_mask 27 (x % 2 ^ 32))

-- The mask changes no number that fits.
xor32_masked : (a b : ℕ) → a < half_size → b < half_size → and32 (xor32 a b) half_mask ≡ bit_xor a b
xor32_masked a b p q =
    let a' : u32 a ≡ a = omega arith in
    let b' : u32 b ≡ b = omega arith in
    rw (a', b') (omega (arith, bit_and_mask 27 (u32 (bit_xor a b)), bit_xor-lt 27 a b p q))

pub round-lt : (half key_a key_b : ℕ) → round half key_a key_b < half_size
unfolding round
round-lt half key_a key_b = and32-lt _

module _ (s : CodeScrambler) where
  pub mix-InRange : (r : ℕ) (x : Halves) → InRange x → InRange (mix s r x)
  unfolding mix
  mix-InRange r x v = (v.1, and32-lt _)

  -- The inverse of one round.
  pub unmix : ℕ → Halves → Halves
  unmix r (left, right) = (
    bit_xor right (round left (get_or s.round_keys (r * 2) 0) (get_or s.round_keys (r * 2 + 1) 0)),
    left,
  )

  unmix-mix : (r : ℕ) (x : Halves) → InRange x → unmix r (mix s r x) ≡ x
  unfolding unmix mix
  unmix-mix r (left, right) v =
      let key = round right (get_or s.round_keys (r * 2) 0) (get_or s.round_keys (r * 2 + 1) 0) in
      ap (λ l. (l, right))
        (ap (λ m. bit_xor m key) (xor32_masked left key v.0 (round-lt _ _ _))
          ∙ bit_xor_twice left key)

  -- The rounds undone, the last first.
  pub unmix_rounds : ℕ → ℕ → Halves → Halves
  unmix_rounds zero r x = x
  unmix_rounds (suc n) r x = unmix r (unmix_rounds n (r + 1) x)

  unmix_rounds-mix_rounds :
      (n r : ℕ) (x : Halves) → InRange x → unmix_rounds n r (mix_rounds s n r x) ≡ x
  unfolding unmix_rounds mix_rounds
  unmix_rounds-mix_rounds zero r x v = refl
  unmix_rounds-mix_rounds (suc n) r x v =
      ap (unmix r) (unmix_rounds-mix_rounds n (r + 1) (mix s r x) (mix-InRange r x v))
      ∙ unmix-mix r x v

  mix_rounds-InRange : (n r : ℕ) (x : Halves) → InRange x → InRange (mix_rounds s n r x)
  unfolding mix_rounds
  mix_rounds-InRange zero r x v = v
  mix_rounds-InRange (suc n) r x v = mix_rounds-InRange n (r + 1) (mix s r x) (mix-InRange r x v)

  -- The inverse network.
  pub unfeistel : Halves → Halves
  unfeistel = unmix_rounds feistel_rounds 0

  -- On two 27-bit halves the network returns two 27-bit halves, from which the inverse network
  -- gets the halves back, whatever the round keys are.
  pub unfeistel-feistel :
      (x : Halves) → InRange x → (unfeistel (feistel s x) ≡ x) × InRange (feistel s x)
  unfolding unfeistel feistel
  unfeistel-feistel x v =
      (unmix_rounds-mix_rounds feistel_rounds 0 x v, mix_rounds-InRange feistel_rounds 0 x v)

  pub feistel-injective : (x y : Halves) → InRange x → InRange y → feistel s x ≡ feistel s y → x ≡ y
  feistel-injective x y v w e =
      sym (unfeistel-feistel x v).0 ∙ ap unfeistel e ∙ (unfeistel-feistel y w).0
