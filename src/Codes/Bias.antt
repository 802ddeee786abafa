-- ===== src/Codes/Bias.antt =====
-- `generateCode` makes codes that the routes accept, and no letter is likelier than another.
use wrap_link.Prelude.{
  ℕ, zero, suc, ◌+◌, ◌≤◌, ◌<◌, ◌≡◌, refl, ap, ◌∙◌, Bool, true, false, not, ◌&&◌, List, [], ◌∷◌,
  none, some, Text, length, get_or, take, all, all-append, all_below, all_below_sound, ◌==◌, ==_iff,
  Bool-cases, le→leb, if◌then◌else◌, inl, inr, arith,
}
use wrap_link.PendingLinks.{is_code_char, is_link_code}
use wrap_link.Codes.{alphabet, letter, is_rejected, generate_code}
use wrap_link.Codes.Letters.{letters, all_letters, length-take, generate_code_lem}

-- How many numbers below the bound pass the test.
unfoldable pub count_below : ℕ → (ℕ → Bool) → ℕ
count_below zero test = 0
count_below (suc n) test = (if test n then 1 else 0) + count_below n test

abbrev makes : ℕ → ℕ → Bool
makes index byte = not (is_rejected byte) && letter byte == get_or alphabet index 0

bytes_table : all_below 62 (λ index. count_below 256 (makes index) == 4) ≡ true
unfolding all_below count_below letter
bytes_table = refl

-- Each of the 62 letters is made from exactly four of the 256 bytes, so a byte that is not rejected
-- is as likely to make one letter as another.
pub four_bytes_each :
    (index : ℕ)
    → index < 62
    → count_below 256 (λ byte. not (is_rejected byte) && letter byte == get_or alphabet index 0) ≡ 4
four_bytes_each index h =
    (==_iff _ 4).0
      (all_below_sound 62 (λ index. count_below 256 (makes index) == 4) index bytes_table h)

letter_table : all_below 248 (λ byte. is_code_char (letter byte)) ≡ true
unfolding all_below is_code_char letter
letter_table = refl

and_true : {a b : Bool} → a ≡ true → b ≡ true → (a && b) ≡ true
and_true h k = rw (h, k)

both_true : (a b : Bool) → (a && b) ≡ true → (a ≡ true) × (b ≡ true)
both_true true b h = (refl, h)
both_true false b h = ground arith

not_rejected : (byte : ℕ) → is_rejected byte ≡ false → byte < 248
not_rejected byte h = ground arith

letters-AreCodes : (bytes : List ℕ) → all is_code_char (letters bytes) ≡ true
unfolding letters
letters-AreCodes [] = refl
letters-AreCodes (byte ∷ bytes) = elim (Bool-cases (is_rejected byte)) [
  | inl r ↦ rw r (letters-AreCodes bytes)
  | inr r ↦ rw r (
      and_true (all_below_sound 248 _ byte letter_table (not_rejected byte r))
        (letters-AreCodes bytes))
]

all_letters-AreCodes : (batches : List (List ℕ)) → all is_code_char (all_letters batches) ≡ true
unfolding all_letters
all_letters-AreCodes [] = refl
all_letters-AreCodes (bytes ∷ batches) =
    all-append is_code_char (letters bytes) (all_letters batches)
    ∙ and_true (letters-AreCodes bytes) (all_letters-AreCodes batches)

all-take : (n : ℕ) (cs : Text) → all is_code_char cs ≡ true → all is_code_char (take n cs) ≡ true
all-take zero cs h = refl
all-take (suc n) [] h = refl
all-take (suc n) (c ∷ cs) h =
    let (first, rest) = both_true (is_code_char c) (all is_code_char cs) h in
    and_true first (all-take n cs rest)

shape :
    (size : ℕ) (cs : Text)
    → 4 ≤ size
    → size ≤ 32
    → length cs ≡ size
    → all is_code_char cs ≡ true
    → is_link_code cs ≡ true
unfolding is_link_code
shape size cs low high e h =
    and_true (and_true (le→leb 4 (length cs) (omega arith)) (le→leb (length cs) 32 (omega arith))) h

-- With a size from 4 to 32, as the size 8 of the default, and bytes enough, `generateCode` returns a
-- code that is accepted where the routes test a code.
pub generate_code-AreAccepted :
    (size : ℕ) (batches : List (List ℕ))
    → 4 ≤ size
    → size ≤ 32
    → size ≤ length (all_letters batches)
    → (code : Text) × (generate_code size batches ≡ some code)
      × (length code ≡ size)
      × (is_link_code code ≡ true)
generate_code-AreAccepted size batches low high enough =
    let more = all_letters batches in
    let size_is : length (take size more) ≡ size = omega (arith, length-take size more) in
    (
      take size more,
      generate_code_lem size batches
          ∙ ap (λ b. if b then some (take size more) else none) (le→leb size (length more) enough),
      size_is,
      shape size (take size more) low high size_is
          (all-take size more (all_letters-AreCodes batches)),
    )
