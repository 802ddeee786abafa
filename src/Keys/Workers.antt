-- ===== src/Keys/Workers.antt =====
-- The split of the shards among workers.
use native.Mathlib.Nat.{add-mul-mod_self_right, mod-eq_of_lt, mod-add-div'}
use wrap_link.Prelude.{
  ℕ, zero, suc, ◌+◌, ◌*◌, ◌/◌, ◌%◌, ◌^◌, ◌<◌, ◌≤◌, ◌≡◌, refl, sym, ◌∙◌, ◌↔◌, inl, inr, List, ◌∷◌,
  ok, pos, integer, is_safe_integer, at_least, nat_value, ltb, lt→ltb, ltb→lt, le→leb, In,
  AllDistinct, arith, Bool-cases,
}
use wrap_link.Keys.{link_key_shards, shards_from, shards_for_worker}

shards_from_more :
    (fuel shard count : ℕ)
    → shard < link_key_shards
    → shards_from (suc fuel) shard count ≡ shard ∷ shards_from fuel (shard + count) count
unfolding shards_from
shards_from_more fuel shard count h = rw (lt→ltb shard link_key_shards h) refl

-- The loop finds only shards from its start on, in steps of the count.
from_start :
    (fuel shard count x : ℕ)
    → In x (shards_from fuel shard count)
    → (k : ℕ) × (x ≡ shard + k * count) × (x < link_key_shards)
unfolding shards_from
from_start zero shard count x h = absurd h
from_start (suc fuel) shard count x h = elim (Bool-cases (ltb shard link_key_shards)) [
  | inl more ↦ elim (rw (shards_from_more fuel shard count (ltb→lt _ _ more)) at h) [
    | inl e ↦ (0, omega arith, omega (arith, ltb→lt _ _ more))
    | inr later ↦
        let (k, e, l) = from_start fuel (shard + count) count x later in (suc k, omega arith, l)
  ]
  | inr done ↦ absurd (rw (done, shards_from) at h)
]

-- It finds each of them, if its fuel is not used up before.
reaches :
    (fuel shard count k x : ℕ)
    → x ≡ shard + k * count
    → x < link_key_shards
    → k < fuel
    → In x (shards_from fuel shard count)
reaches zero shard count k x e l h = absurd (omega arith)
reaches (suc fuel) shard count zero x e l h =
    rw (shards_from_more fuel shard count (omega arith)) (inl (omega arith))
reaches (suc fuel) shard count (suc k) x e l h =
    rw (shards_from_more fuel shard count (omega arith))
      (inr (reaches fuel (shard + count) count k x (omega arith) l (omega arith)))

ascending : (fuel shard count : ℕ) → 0 < count → AllDistinct (shards_from fuel shard count)
unfolding shards_from
ascending zero shard count p = tt
ascending (suc fuel) shard count p = elim (Bool-cases (ltb shard link_key_shards)) [
  | inl more ↦ rw (shards_from_more fuel shard count (ltb→lt _ _ more)) (
    λ h. let (k, e, _) = from_start fuel (shard + count) count shard h in absurd (omega arith),
    ascending fuel (shard + count) count p,
  )
  | inr done ↦ rw (done, shards_from) tt
]

rounds-le : (k count x : ℕ) → 0 < count → k * count ≤ x → k ≤ x
rounds-le k count x p h = grind arith

step_residue : (i k n : ℕ) → i < n → (i + k * n) % n ≡ i
step_residue i k n h = add-mul-mod_self_right i k n ∙ mod-eq_of_lt h

residue_step : (x n : ℕ) → x ≡ x % n + x / n * n
residue_step x n = sym (mod-add-div' x n)

worker_checked :
    (i n : ℕ)
    → i < n
    → n < 2 ^ 53
    → shards_for_worker (integer (pos i)) (integer (pos n))
      ≡ ok (shards_from (suc link_key_shards) i n)
unfolding shards_for_worker is_safe_integer at_least nat_value
worker_checked i n h k =
    rw
      (
        lt→ltb n (2 ^ 53) k,
        le→leb 1 n (omega arith),
        lt→ltb i (2 ^ 53) (omega arith),
        le→leb 0 i (omega arith),
        lt→ltb i n h,
      )
      refl

-- Of `n` workers, worker `i` has a shard exactly if the shard is below 1,024 and has the remainder
-- `i` by `n`, and no worker has a shard twice; so every shard has exactly one worker.
pub shards_for_worker_iff :
    (i n x : ℕ)
    → i < n
    → n < 2 ^ 53
    → (shards : List ℕ) × (shards_for_worker (integer (pos i)) (integer (pos n)) ≡ ok shards)
      × AllDistinct shards
      × (In x shards ↔ ((x < link_key_shards) × (x % n ≡ i)))
shards_for_worker_iff i n x h k = (
  shards_from (suc link_key_shards) i n,
  worker_checked i n h k,
  ascending (suc link_key_shards) i n (omega arith),
  (
    λ m.
        let (j, e, l) = from_start (suc link_key_shards) i n x m in
        (l, rw e (step_residue i j n h)),
    λ m.
        let e : x ≡ i + x / n * n = rw (← m.1) (residue_step x n) in
        reaches (suc link_key_shards) i n (x / n) x e m.0
          (omega (arith, rounds-le (x / n) n x (omega arith) (omega arith))),
  ),
)
