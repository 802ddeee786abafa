-- ===== src/Scrambler/Permute.antt =====
-- `permute`: total on the code space, into it, and injective, so a permutation of it.
use mathlib.Core.Path.{ap₂}
use wrap_link.Prelude.{
  ℕ, zero, suc, ◌<◌, ◌≡◌, refl, sym, ap, ◌∙◌, ◌≢◌, true, some, ok, pos, ltb, arith, lt→ltb,
  Bool-cases, inl, inr, ltb→lt,
}
use wrap_link.Base62.{allocated_code_space}
use wrap_link.Scrambler.{
  Halves, CodeScrambler, inside_code_space, feistel, walk, walk_fuel, permute_halves, split_id,
  join, permute,
}
use wrap_link.Scrambler.Walk.{Finite, loop, loop_total, loop_injective}
use wrap_link.Scrambler.Feistel.{InRange, unfeistel-feistel, feistel-injective}

-- The test on the halves is the test on the number that they hold.
pub inside_iff_below :
    (x : Halves) → InRange x → inside_code_space x ≡ ltb (join x) allocated_code_space
unfolding inside_code_space
inside_iff_below (high, low) v = ground arith

split-InRange : (id : ℕ) → id < allocated_code_space → InRange (split_id id)
split-InRange id h = omega arith

split-inside : (id : ℕ) → id < allocated_code_space → inside_code_space (split_id id) ≡ true
split-inside id h = inside_iff_below (split_id id) (split-InRange id h) ∙ lt→ltb _ _ (omega arith)

join-split : (id : ℕ) → join (split_id id) ≡ id
join-split id = omega arith

join_injective : (x y : Halves) → InRange x → InRange y → join x ≡ join y → x ≡ y
join_injective (a, b) (c, d) v w e =
    let parts : (a ≡ c) × (b ≡ d) = omega arith in ap₂ (λ m n. (m, n)) parts.0 parts.1

module _ (s : CodeScrambler) where
  feistel-Finite : Finite InRange walk_fuel (feistel s)
  unfolding walk_fuel
  feistel-Finite = record {
    code = join;
    code-lt = λ x v. omega arith;
    code-injective = join_injective;
    keeps = λ x v. (unfeistel-feistel s x v).1;
    injective = feistel-injective s;
  }

  walk-loop : (fuel : ℕ) (x : Halves) → walk s fuel x ≡ loop (feistel s) inside_code_space fuel x
  unfolding walk loop
  walk-loop zero x = refl
  walk-loop (suc fuel) x = elim (Bool-cases (inside_code_space x)) [
    | inl here ↦ rw (here, walk, loop)
    | inr on ↦ rw (on, walk, loop) (walk-loop fuel (feistel s x))
  ]

  pub permute_halves_total :
      (x : Halves)
      → InRange x
      → inside_code_space x ≡ true
      → (y : Halves) × (permute_halves s x ≡ some y) × InRange y × (inside_code_space y ≡ true)
  unfolding permute_halves
  permute_halves_total x v h =
      rw (walk-loop walk_fuel (feistel s x)) (loop_total feistel-Finite inside_code_space x v h)

  pub permute_halves_injective :
      (x y : Halves) {z : Halves}
      → InRange x
      → InRange y
      → inside_code_space x ≡ true
      → inside_code_space y ≡ true
      → permute_halves s x ≡ some z
      → permute_halves s y ≡ some z
      → x ≡ y
  unfolding permute_halves
  permute_halves_injective x y v w h k e e' =
      loop_injective feistel-Finite inside_code_space walk_fuel x y v w h k
        (sym (walk-loop walk_fuel (feistel s x)) ∙ e) (sym (walk-loop walk_fuel (feistel s y)) ∙ e')

  pub split_total :
      (id : ℕ)
      → id < allocated_code_space
      → (y : Halves) × (permute_halves s (split_id id) ≡ some y)
        × InRange y
        × (join y < allocated_code_space)
  split_total id h =
      let v = split-InRange id h in
      let (y, run, w, within) = permute_halves_total (split_id id) v (split-inside id h) in
      (y, run, w, ltb→lt _ _ (sym (inside_iff_below y w) ∙ within))

  pub split_injective :
      (id id' : ℕ) {z : Halves}
      → id < allocated_code_space
      → id' < allocated_code_space
      → permute_halves s (split_id id) ≡ some z
      → permute_halves s (split_id id') ≡ some z
      → id ≡ id'
  split_injective id id' h k e e' =
      let v = split-InRange id h in
      let w = split-InRange id' k in
      let same =
        permute_halves_injective (split_id id) (split_id id') v w (split-inside id h)
          (split-inside id' k) e e' in
      sym (join-split id) ∙ ap join same ∙ join-split id'

  -- On an id of the code space the walk ends within its fuel, and the result is in the code space.
  pub permute_total :
      (id : ℕ)
      → id < allocated_code_space
      → (y : ℕ) × (permute s (pos id) ≡ some (ok y)) × (y < allocated_code_space)
  unfolding permute
  permute_total id h =
      let (y, run, w, below) = split_total id h in (join y, rw (lt→ltb _ _ h, run), below)

  joins_same :
      (id id' : ℕ) {x y : Halves}
      → id < allocated_code_space
      → id' < allocated_code_space
      → permute_halves s (split_id id) ≡ some x
      → permute_halves s (split_id id') ≡ some y
      → permute s (pos id) ≡ permute s (pos id')
      → join x ≡ join y
  unfolding permute
  joins_same id id' {x} {y} h k run run' e =
      let e' : some (ok (join x)) ≡ some (ok (join y)) =
        rw (lt→ltb _ _ h, run, lt→ltb _ _ k, run') at e in
      cc

  pub permute_injective :
      (id id' : ℕ)
      → id < allocated_code_space
      → id' < allocated_code_space
      → permute s (pos id) ≡ permute s (pos id')
      → id ≡ id'
  permute_injective id id' h k e =
      let (x, run, v, _) = split_total id h in
      let (y, run', w, _) = split_total id' k in
      let same : x ≡ y = join_injective x y v w (joins_same id id' h k run run' e) in
      split_injective id id' h k run (rw same run')

  -- Distinct ids of the code space have distinct images.
  pub permute_ne :
      (id id' : ℕ)
      → id < allocated_code_space
      → id' < allocated_code_space
      → id ≢ id'
      → permute s (pos id) ≢ permute s (pos id')
  permute_ne id id' h k distinct e = distinct (permute_injective id id' h k e)
