-- ===== src/Scrambler/Walk.antt =====
-- Cycle-walking, for any injective map of a finite set: from a point inside the loop comes back
-- inside, and distinct points come back to distinct points.
use wrap_link.Prelude.{
  ℕ, zero, suc, ◌+◌, ◌-◌, ◌≤◌, ◌<◌, ◌≡◌, refl, sym, ◌∙◌, ◌≢◌, ◌⊎◌, inl, inr, Bool, true, false,
  Option, none, some, arith, ◌==◌, if◌then◌else◌, ℕ_discrete, Bool-cases,
}

search_value : (g : ℕ → ℕ) (v k : ℕ) → ((i : ℕ) × (i < k) × (g i ≡ v)) ⊎ ((i : ℕ) → i < k → g i ≢ v)
search_value g v zero = inr (λ i h. absurd (omega arith))
search_value g v (suc k) = elim (search_value g v k) [
  | inl (i, h, e) ↦ inl (i, omega arith, e)
  | inr none_below ↦ elim (ℕ_discrete (g k) v) [
    | yes e ↦ inl (k, omega arith, e)
    | no n ↦ inr (λ i h. elim (ℕ_discrete i k) [
      | yes same ↦ rw same n
      | no other ↦ none_below i (omega arith)
    ])
  ]
]

-- `g` with the value `n` renamed to the last value.
moved : ℕ → (ℕ → ℕ) → ℕ → ℕ
moved n g i = if g i == n then g (suc n) else g i

moved_below :
    (n : ℕ) (g : ℕ → ℕ) (i : ℕ)
    → i ≤ n
    → ((i : ℕ) → i ≤ suc n → g i < suc n)
    → ((i : ℕ) → i < suc n → g i ≢ g (suc n))
    → moved n g i < n
unfolding moved
moved_below n g i h below fresh =
    ground (arith, below i (omega arith), below (suc n) (omega arith), fresh i (omega arith))

unmoved :
    (n : ℕ) (g : ℕ → ℕ) (i j : ℕ)
    → i ≤ n
    → j ≤ n
    → ((i : ℕ) → i < suc n → g i ≢ g (suc n))
    → moved n g i ≡ moved n g j
    → g i ≡ g j
unfolding moved
unmoved n g i j h k fresh e = ground (arith, fresh i (omega arith), fresh j (omega arith))

-- `n + 1` values below `n` are not all distinct.
pub pigeonhole :
    (n : ℕ) (g : ℕ → ℕ) → ((i : ℕ) → i ≤ n → g i < n) → (i j : ℕ) × (i < j) × (j ≤ n) × (g i ≡ g j)
pigeonhole zero g below = absurd (omega (arith, below 0 (omega arith)))
pigeonhole (suc n) g below = elim (search_value g (g (suc n)) (suc n)) [
  | inl (i, h, e) ↦ (i, suc n, h, omega arith, e)
  | inr fresh ↦
      let (i, j, h, k, e) = pigeonhole n (moved n g) (λ i h. moved_below n g i h below fresh) in
      (i, j, h, omega arith, unmoved n g i j (omega arith) (omega arith) fresh e)
]

unfoldable pub iterate {ℓ} : {S : Type ℓ} → (S → S) → ℕ → S → S
iterate f zero s = s
iterate f (suc n) s = iterate f n (f s)

iterate-add {ℓ} :
    {S : Type ℓ} (f : S → S) (m n k : ℕ) (s : S)
    → m + n ≡ k
    → iterate f k s ≡ iterate f n (iterate f m s)
unfolding iterate
iterate-add f zero n k s e = let e' : k ≡ n = omega arith in rw e'
iterate-add f (suc m) n k s e =
    let e' : k ≡ suc (m + n) = omega arith in rw e' (iterate-add f m n (m + n) (f s) refl)

-- `let s = f(start); while (!inside(s)) s = f(s)` from `s` on.
unfoldable pub loop {ℓ} : {S : Type ℓ} → (S → S) → (S → Bool) → ℕ → S → Option S
loop f inside zero s = none
loop f inside (suc fuel) s = elim (inside s) [ true ↦ some s | false ↦ loop f inside fuel (f s) ]

-- The loop ends where the iteration is first inside.
pub record Ends {ℓ} {S : Type ℓ} (f : S → S) (inside : S → Bool) (s y : S) : Type ℓ where
  pub count : ℕ
  pub result : y ≡ iterate f count s
  pub within : inside y ≡ true
  pub before : (i : ℕ) → i < count → inside (iterate f i s) ≡ false

before_later {ℓ} :
    {S : Type ℓ} (f : S → S) (inside : S → Bool) (s : S) (k : ℕ)
    → inside s ≡ false
    → ((i : ℕ) → i < k → inside (iterate f i (f s)) ≡ false)
    → (i : ℕ) → i < suc k
    → inside (iterate f i s) ≡ false
unfolding iterate
before_later f inside s k on before zero h = on
before_later f inside s k on before (suc i) h = before i (omega arith)

later {ℓ} :
    {S : Type ℓ} {f : S → S} {inside : S → Bool} {s y : S}
    → inside s ≡ false
    → Ends f inside (f s) y
    → Ends f inside s y
unfolding iterate
later {f} {inside} {s} on e = record {
  count = suc e.count;
  result = e.result;
  within = e.within;
  before = before_later f inside s e.count on e.before;
}

loop-Ends {ℓ} :
    {S : Type ℓ} (f : S → S) (inside : S → Bool) (fuel : ℕ) (s : S) {y : S}
    → loop f inside fuel s ≡ some y
    → Ends f inside s y
unfolding loop iterate
loop-Ends f inside zero s e = cc
loop-Ends f inside (suc fuel) s {y} e = elim (Bool-cases (inside s)) [
  | inl here ↦
      let run : some s ≡ some y = rw (here, loop) at e in
      let same : s ≡ y = cc in
      record {
        count = 0;
        result = sym same;
        within = rw (← same) here;
        before = λ i h. absurd (omega arith);
      }
  | inr on ↦ later on (loop-Ends f inside fuel (f s) (rw (on, loop) at e))
]

loop_stops {ℓ} :
    {S : Type ℓ} (f : S → S) (inside : S → Bool) (k fuel : ℕ) (s : S)
    → k < fuel
    → inside (iterate f k s) ≡ true
    → (y : S) × (loop f inside fuel s ≡ some y)
unfolding loop iterate
loop_stops f inside k zero s h e = absurd (omega arith)
loop_stops f inside zero (suc fuel) s h e = (s, rw (e, loop))
loop_stops f inside (suc k) (suc fuel) s h e = elim (Bool-cases (inside s)) [
  | inl here ↦ (s, rw (here, loop))
  | inr on ↦ rw (on, loop) (loop_stops f inside k fuel (f s) (omega arith) e)
]

le_or_le : (a b : ℕ) → (a ≤ b) ⊎ (b ≤ a)
le_or_le a b = grind arith

-- A map of a finite set that is injective: `code` numbers the set below `size`.
pub record Finite {S : Type 0} (Valid : S → Type 0) (size : ℕ) (f : S → S) : Type 0 where
  pub code : S → ℕ
  pub code-lt : (s : S) → Valid s → code s < size
  pub code-injective : (s t : S) → Valid s → Valid t → code s ≡ code t → s ≡ t
  pub keeps : (s : S) → Valid s → Valid (f s)
  pub injective : (s t : S) → Valid s → Valid t → f s ≡ f t → s ≡ t

module _ {S : Type 0} {Valid : S → Type 0} {size : ℕ} {f : S → S} (fin : Finite Valid size f) where
  iterate-Valid : (n : ℕ) (s : S) → Valid s → Valid (iterate f n s)
  unfolding iterate
  iterate-Valid zero s v = v
  iterate-Valid (suc n) s v = iterate-Valid n (f s) (fin.keeps s v)

  iterate-injective : (n : ℕ) (s t : S) → Valid s → Valid t → iterate f n s ≡ iterate f n t → s ≡ t
  unfolding iterate
  iterate-injective zero s t v w e = e
  iterate-injective (suc n) s t v w e =
      fin.injective s t v w (iterate-injective n (f s) (f t) (fin.keeps s v) (fin.keeps t w) e)

  -- Every point lies on a cycle, no longer than the set is large.
  returns : (s : S) → Valid s → (k : ℕ) × (k < size) × (iterate f (suc k) s ≡ s)
  returns s v =
      let (i, j, h, k, e) =
        pigeonhole size (λ i. fin.code (iterate f i s))
          (λ i h. fin.code-lt _ (iterate-Valid i s v)) in
      let d = j - i - 1 in
      (
        d,
        omega arith,
        sym (
            iterate-injective i s (iterate f (suc d) s) v (iterate-Valid (suc d) s v) (
              fin.code-injective _ _ (iterate-Valid i s v) (iterate-Valid j s v) e
              ∙ iterate-add f (suc d) i j s (omega arith))),
      )

  module _ (inside : S → Bool) where
    -- From a point inside, the walk comes back inside within `size` steps.
    pub loop_total :
        (s : S)
        → Valid s
        → inside s ≡ true
        → (y : S) × (loop f inside size (f s) ≡ some y) × Valid y × (inside y ≡ true)
    unfolding iterate
    loop_total s v h =
        let (k, small, e) = returns s v in
        let (y, run) = loop_stops f inside k size (f s) small (rw e h) in
        let ends = loop-Ends f inside size (f s) run in
        (y, run, rw ends.result (iterate-Valid ends.count (f s) (fin.keeps s v)), ends.within)

    shorter_same :
        (s t : S) {y : S} (d : ℕ)
        → Valid s
        → Valid t
        → inside s ≡ true
        → (a : Ends f inside (f s) y) → (b : Ends f inside (f t) y) → a.count + d ≡ b.count
        → s ≡ iterate f d t
    unfolding iterate
    shorter_same s t d v w h a b e =
        iterate-injective (suc a.count) s (iterate f d t) v (iterate-Valid d t w)
          (sym a.result ∙ b.result ∙ iterate-add f d (suc a.count) (suc b.count) t (omega arith))

    -- One walk is no proper part of another: its start would have ended the other.
    no_part :
        (s t : S) {y : S} (d : ℕ)
        → Valid s
        → Valid t
        → inside s ≡ true
        → (a : Ends f inside (f s) y) → (b : Ends f inside (f t) y) → a.count + d ≡ b.count
        → s ≡ t
    unfolding iterate
    no_part s t zero v w h a b e = shorter_same s t zero v w h a b e
    no_part s t (suc d) v w h a b e =
        let same : s ≡ iterate f d (f t) = shorter_same s t (suc d) v w h a b e in
        let out : inside s ≡ false = rw same (b.before d (omega arith)) in cc

    -- Walks from distinct points inside end at distinct points.
    pub loop_injective :
        (fuel : ℕ) (s t : S) {y : S}
        → Valid s
        → Valid t
        → inside s ≡ true
        → inside t ≡ true
        → loop f inside fuel (f s) ≡ some y
        → loop f inside fuel (f t) ≡ some y
        → s ≡ t
    loop_injective fuel s t v w h k run run' =
        let a = loop-Ends f inside fuel (f s) run in
        let b = loop-Ends f inside fuel (f t) run' in
        elim (le_or_le a.count b.count) [
          | inl p ↦ no_part s t (b.count - a.count) v w h a b (omega arith)
          | inr p ↦ sym (no_part t s (a.count - b.count) w v k b a (omega arith))
        ]
