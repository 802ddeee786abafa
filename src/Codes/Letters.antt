-- ===== src/Codes/Letters.antt =====
-- `generateCode` against the letters of all the bytes that are not rejected.
use wrap_link.Prelude.{
  ℕ, zero, suc, ◌+◌, ◌-◌, ◌<◌, min, ◌≡◌, refl, sym, ap, ◌∙◌, false, List, [], ◌∷◌, ◌++◌, Option,
  none, some, Text, length, length-append, take, leb, ltb, ◌==◌, ==_iff, Bool-cases, lt→ltb, leb→le,
  le→leb, if◌then◌else◌, inl, inr, arith,
}
use mathlib.Core.List.{append-nil, append_assoc}
use wrap_link.Codes.{letter, is_rejected, add_byte, add_bytes, add_batches, generate_code}

-- The letters of the bytes that are not rejected.
unfoldable pub letters : List ℕ → Text
letters [] = []
letters (byte ∷ bytes) = if is_rejected byte then letters bytes else letter byte ∷ letters bytes

unfoldable pub all_letters : List (List ℕ) → Text
all_letters [] = []
all_letters (bytes ∷ batches) = letters bytes ++ all_letters batches

pub length-take : (k : ℕ) (xs : Text) → length (take k xs) ≡ min k (length xs)
length-take zero xs = omega arith
length-take (suc k) [] = omega arith
length-take (suc k) (x ∷ xs) = omega (arith, length-take k xs)

minus_zero : (k : ℕ) → k ≡ k - 0
minus_zero k = omega arith

take-append :
    (k : ℕ) (xs ys : Text) → take k (xs ++ ys) ≡ take k xs ++ take (k - length (take k xs)) ys
take-append zero xs ys = refl
take-append (suc k) [] ys = ap (λ n. take n ys) (minus_zero (suc k))
take-append (suc k) (x ∷ xs) ys =
    ap (λ zs. x ∷ zs) (take-append k xs ys ∙ ap (λ n. take k xs ++ take n ys) (omega arith))

longer :
    (size k : ℕ) (c : ℕ) (result : Text)
    → length result + suc k ≡ size
    → length (result ++ c ∷ []) + k ≡ size
longer size k c result h = omega (arith, length-append result (c ∷ []))

-- The end of a round in which a letter is added.
add_letter :
    (size k c : ℕ) (result rest tail : Text)
    → length result + suc k ≡ size
    → ((k' : ℕ) → k ≡ suc k' → rest ≡ (result ++ c ∷ []) ++ take (suc k') tail)
    → (if length (result ++ c ∷ []) == size then result ++ c ∷ [] else rest)
      ≡ result ++ c ∷ take k tail
add_letter size zero c result rest tail h next =
    rw ((==_iff (length (result ++ c ∷ [])) size).1 (omega (arith, longer size zero c result h)))
add_letter size (suc k) c result rest tail h next =
    elim (Bool-cases (length (result ++ c ∷ []) == size)) [
      | inl e ↦ absurd (
          omega
            (arith, longer size (suc k) c result h, (==_iff (length (result ++ c ∷ [])) size).0 e))
      | inr e ↦ rw e (next k refl ∙ append_assoc result (c ∷ []) (take (suc k) tail))
    ]

add_bytes-letters :
    (size k : ℕ) (bytes : List ℕ) (result : Text)
    → length result + suc k ≡ size
    → add_bytes size bytes result ≡ result ++ take (suc k) (letters bytes)
unfolding add_bytes add_byte letters
add_bytes-letters size k [] result h = sym (append-nil result)
add_bytes-letters size k (byte ∷ bytes) result h = elim (Bool-cases (is_rejected byte)) [
  | inl r ↦ rw r (add_bytes-letters size k bytes result h)
  | inr r ↦ rw r (
      add_letter size k (letter byte) result (add_bytes size bytes (result ++ letter byte ∷ []))
        (letters bytes) h
        (λ k' e.
          add_bytes-letters size k' bytes (result ++ letter byte ∷ [])
            (omega (arith, longer size k (letter byte) result h))))
]

leb_exceeds : (a b : ℕ) → b < a → leb a b ≡ false
leb_exceeds a b h = ground arith

false→lt : (a b : ℕ) → leb a b ≡ false → b < a
false→lt a b h = ground arith

-- The answer of the loops, from what has been made and what is still missing.
abbrev answer : ℕ → Text → Text → Option Text
answer k result more = if leb k (length more) then some (result ++ take k more) else none

leb_split : (k t m r mr : ℕ) → t ≡ min k m → mr ≡ m + r → leb (k - t) r ≡ leb k mr
leb_split k t m r mr ht hm = elim (Bool-cases (leb k mr)) [
  | inl e ↦ le→leb (k - t) r (omega (arith, leb→le k mr e)) ∙ sym e
  | inr e ↦ leb_exceeds (k - t) r (omega (arith, false→lt k mr e)) ∙ sym e
]

answer_zero : (result more : Text) → answer 0 result more ≡ some result
answer_zero result more = rw (le→leb 0 (length more) (omega arith)) (ap some (append-nil result))

answer_split :
    (k : ℕ) (result more rest : Text)
    → answer (k - length (take k more)) (result ++ take k more) rest
      ≡ answer k result (more ++ rest)
answer_split k result more rest =
    ap
      (λ b.
        if b then some (result ++ take k more ++ take (k - length (take k more)) rest) else none)
      (leb_split k (length (take k more)) (length more) (length rest) (length (more ++ rest))
        (length-take k more) (length-append more rest))
    ∙ ap (λ xs. if leb k (length (more ++ rest)) then some xs else none)
        (append_assoc result (take k more) (take (k - length (take k more)) rest)
          ∙ ap (◌++◌ result) (sym (take-append k more rest)))

ltb_complete : (size : ℕ) (result : Text) → length result ≡ size → ltb (length result) size ≡ false
ltb_complete size result h = ground arith

add_batches-letters :
    (size k : ℕ) (batches : List (List ℕ)) (result : Text)
    → length result + k ≡ size
    → add_batches size batches result ≡ answer k result (all_letters batches)
unfolding add_batches all_letters
add_batches-letters size zero [] result h =
    rw (ltb_complete size result (omega arith)) (sym (answer_zero result []))
add_batches-letters size zero (b ∷ bs) result h =
    rw (ltb_complete size result (omega arith))
      (sym (answer_zero result (letters b ++ all_letters bs)))
add_batches-letters size (suc k) [] result h =
    rw (lt→ltb (length result) size (omega arith)) (rw (leb_exceeds (suc k) 0 (omega arith)) refl)
add_batches-letters size (suc k) (b ∷ bs) result h =
    rw (lt→ltb (length result) size (omega arith)) (
      ap (add_batches size bs) (add_bytes-letters size k b result h)
      ∙ add_batches-letters size (suc k - length (take (suc k) (letters b))) bs
          (result ++ take (suc k) (letters b))
          (omega (
            arith,
            length-append result (take (suc k) (letters b)),
            length-take (suc k) (letters b),
          ))
      ∙ answer_split (suc k) result (letters b) (all_letters bs))

-- `generateCode` returns the first `size` letters of the bytes below 248 of all the answers of
-- `randomBytes` together, in their order, a letter for each byte; it asks for another answer exactly
-- as long as those are fewer.
pub generate_code_lem :
    (size : ℕ) (batches : List (List ℕ))
    → generate_code size batches ≡ (
        if leb size (length (all_letters batches))
        then some (take size (all_letters batches))
        else none)
unfolding generate_code
generate_code_lem size batches = add_batches-letters size size batches [] (omega arith)
