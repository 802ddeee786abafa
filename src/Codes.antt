-- ===== src/Codes.antt =====
-- src/domain/code.ts: `generateCode`. The answers of `randomBytes` are an argument.
pub mod Letters
pub mod Bias
mod Tests
use wrap_link.Prelude.{
  ℕ, ◌%◌, Bool, true, false, not, ◌&&◌, List, [], ◌∷◌, ◌++◌, Option, none, some, Text, codes,
  length, get_or, leb, ltb, ◌==◌, if◌then◌else◌,
}

abbrev pub alphabet : Text
alphabet = codes "0123456789ABCDEFGHIJKLMNOPQRSTUVWXYZabcdefghijklmnopqrstuvwxyz"

-- `ALPHABET[byte % ALPHABET.length]`
unfoldable pub letter : ℕ → ℕ
letter byte = get_or alphabet (byte % length alphabet) 0

abbrev pub is_rejected : ℕ → Bool
is_rejected byte = leb 248 byte

-- The loop over the bytes of one answer: a byte that is rejected is passed over, and a letter that
-- makes the code complete ends the loop.
add_byte : ℕ → Text → Text
add_byte byte result = if is_rejected byte then result else result ++ letter byte ∷ []

add_bytes : ℕ → List ℕ → Text → Text
unfolding add_byte
add_bytes size [] result = result
add_bytes size (byte ∷ bytes) result =
    let longer = add_byte byte result in
    let rest = add_bytes size bytes longer in
    if not (is_rejected byte) && length longer == size then longer else rest

-- The loop over the answers; none if they do not suffice, and another is asked for.
add_batches : ℕ → List (List ℕ) → Text → Option Text
unfolding add_bytes
add_batches size [] result = if ltb (length result) size then none else some result
add_batches size (bytes ∷ batches) result =
    let rest = add_batches size batches (add_bytes size bytes result) in
    if ltb (length result) size then rest else some result

unfoldable pub generate_code : ℕ → List (List ℕ) → Option Text
unfolding add_batches
generate_code size batches = add_batches size batches []
