-- ===== src/ApiKeys/Accepts.antt =====
-- Which candidates are accepted.
use wrap_link.Prelude.{
  ℕ, ◌≤◌, ◌<◌, ◌≡◌, ◌↔◌, refl, sym, ap, subst, inl, inr, Bool, true, false, not, ◌||◌, List, [],
  ◌∷◌, map, Text, length, all, ok, guard, >>=-eq-ok, text, leb, ltb, In, arith, Bool-cases,
}
use wrap_link.ApiKeys.{
  Digest, Authenticator, is_empty, new_authenticator, compare_all, authenticate_text, authenticate,
}

in_range : (n : ℕ) → 32 ≤ n → n ≤ 256 → (ltb n 32 || ltb 256 n) ≡ false
in_range n h k = ground arith

range_of : (n : ℕ) → (ltb n 32 || ltb 256 n) ≡ false → (32 ≤ n) × (n ≤ 256)
range_of n h = ground arith

too_long : (n : ℕ) → 256 < n → (ltb n 32 || ltb 256 n) ≡ true
too_long n h = ground arith

no_true : false ≡ true → ⊥
no_true h = cc

module _ (hash_api_key : Text → Digest) (timing_safe_equal : Digest → Digest → Bool)
    (equal_iff : (d e : Digest) → (timing_safe_equal d e ≡ true) ↔ (d ≡ e)) where
  abbrev compares : Digest → List Digest → Bool → Bool
  compares = compare_all hash_api_key timing_safe_equal

  compare_all-true : (d : Digest) (hs : List Digest) → compares d hs true ≡ true
  unfolding compare_all
  compare_all-true d [] = refl
  compare_all-true d (h ∷ hs) = elim (Bool-cases (timing_safe_equal d h)) [
    | inl same ↦ rw (same, compare_all) (compare_all-true d hs)
    | inr other ↦ rw (other, compare_all) (compare_all-true d hs)
  ]

  compare_all-In : (d : Digest) (hs : List Digest) → In d hs → compares d hs false ≡ true
  unfolding compare_all
  compare_all-In d [] h = absurd h
  compare_all-In d (e ∷ hs) h = elim (Bool-cases (timing_safe_equal d e)) [
    | inl same ↦ rw (same, compare_all) (compare_all-true d hs)
    | inr other ↦ rw (other, compare_all) (compare_all-In d hs (not_here other h))
  ]
    where
      not_here : timing_safe_equal d e ≡ false → In d (e ∷ hs) → In d hs
      not_here other (inl same) = absurd (no_both ((equal_iff d e).1 same) other)
        where
          no_both : timing_safe_equal d e ≡ true → timing_safe_equal d e ≡ false → ⊥
          no_both p q = cc
      not_here other (inr later) = later

  In-compare_all : (d : Digest) (hs : List Digest) → compares d hs false ≡ true → In d hs
  unfolding compare_all
  In-compare_all d [] h = cc
  In-compare_all d (e ∷ hs) h = elim (Bool-cases (timing_safe_equal d e)) [
    | inl same ↦ inl ((equal_iff d e).0 same)
    | inr other ↦ inr (In-compare_all d hs (rw (other, compare_all) at h))
  ]

  In-map :
      (d : Digest) (ks : List Text)
      → In d (map hash_api_key ks)
      → (k : Text) × In k ks × (d ≡ hash_api_key k)
  In-map d [] h = absurd h
  In-map d (k ∷ ks) (inl e) = (k, inl refl, e)
  In-map d (k ∷ ks) (inr h) = let (j, l, e) = In-map d ks h in (j, inr l, e)

  map-In : (k : Text) (ks : List Text) → In k ks → In (hash_api_key k) (map hash_api_key ks)
  map-In k [] h = absurd h
  map-In k (j ∷ ks) (inl e) = inl (ap hash_api_key e)
  map-In k (j ∷ ks) (inr h) = inr (map-In k ks h)

  hashes-new :
      (keys : List Text) (a : Authenticator)
      → new_authenticator hash_api_key keys ≡ ok a
      → a.hashes ≡ map hash_api_key keys
  unfolding new_authenticator
  hashes-new keys a e =
      let (_, _, e1) = >>=-eq-ok (guard (not (is_empty keys)) _) _ e in
      let (_, _, e2) = >>=-eq-ok (guard (all (λ k. leb 32 (length k)) keys) _) _ e1 in
      let same : record { hashes = map hash_api_key keys } ≡ a = cc in
      ap (λ (b : Authenticator). b.hashes) (sym same)

  text_accepted :
      (a : Authenticator) (candidate : Text)
      → 32 ≤ length candidate
      → length candidate ≤ 256
      → In (hash_api_key candidate) a.hashes
      → authenticate_text hash_api_key timing_safe_equal a candidate ≡ true
  unfolding authenticate_text
  text_accepted a candidate h k i =
      rw (in_range (length candidate) h k) (compare_all-In (hash_api_key candidate) a.hashes i)

  accepted_text :
      (a : Authenticator) (candidate : Text)
      → authenticate_text hash_api_key timing_safe_equal a candidate ≡ true
      → (32 ≤ length candidate) × (length candidate ≤ 256) × In (hash_api_key candidate) a.hashes
  unfolding authenticate_text
  accepted_text a candidate h =
      elim (Bool-cases (ltb (length candidate) 32 || ltb 256 (length candidate))) [
        | inl outside ↦ absurd (no_true (rw (outside, authenticate_text) at h))
        | inr within ↦
            let (low, high) = range_of (length candidate) within in
            (
              low,
              high,
              In-compare_all (hash_api_key candidate) a.hashes
                  (rw (within, authenticate_text) at h),
            )
      ]

  -- An authenticator made from a list of keys accepts a text exactly if the text has 32 to 256
  -- characters and the digest of one of the keys.
  pub authenticate_iff :
      (keys : List Text) (a : Authenticator) (candidate : Text)
      → new_authenticator hash_api_key keys ≡ ok a
      → (authenticate hash_api_key timing_safe_equal a (text candidate) ≡ true) ↔ (
          (32 ≤ length candidate)
          × (length candidate ≤ 256)
          × ((k : Text) × In k keys × (hash_api_key candidate ≡ hash_api_key k)))
  unfolding authenticate
  authenticate_iff keys a candidate made =
      let e = hashes-new keys a made in
      (
        λ h.
            let (low, high, i) = accepted_text a candidate h in
            (
              low,
              high,
              In-map (hash_api_key candidate) keys (subst (In (hash_api_key candidate)) e i),
            ),
        λ h.
            let (k, i, d) = h.2 in
            text_accepted a candidate h.0 h.1 (
              subst (In (hash_api_key candidate)) (sym e)
                (subst (λ x. In x (map hash_api_key keys)) (sym d) (map-In k keys i))),
      )

  -- A configured key of more than 256 characters is refused: it counts as a valid key when the
  -- authenticator is made, and no request with it is accepted.
  pub long_key_refused :
      (keys : List Text) (key : Text)
      → all (λ k. leb 32 (length k)) (key ∷ keys) ≡ true
      → 256 < length key
      → (a : Authenticator) × (new_authenticator hash_api_key (key ∷ keys) ≡ ok a)
        × (authenticate hash_api_key timing_safe_equal a (text key) ≡ false)
  unfolding new_authenticator authenticate authenticate_text
  long_key_refused keys key valid long = (
    record { hashes = map hash_api_key (key ∷ keys) },
    rw valid refl,
    rw (too_long (length key) long) refl,
  )
