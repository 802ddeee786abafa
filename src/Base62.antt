-- ===== src/Base62.antt =====
-- src/domain/code-allocator.ts: the Base62 alphabet and the reference encoder `encodeBase62Fixed`.
pub mod Laws
mod Tests
use wrap_link.Prelude.{
  ℕ, zero, suc, ◌/◌, ◌%◌, ◌^◌, [], ◌∷◌, Text, codes, get_or, Result, ok, throw, ℤ, pos, negsuc,
  ◌==◌, if◌then◌else◌,
}

abbrev pub alphabet : Text
alphabet = codes "0123456789ABCDEFGHIJKLMNOPQRSTUVWXYZabcdefghijklmnopqrstuvwxyz"

abbrev pub allocated_code_length : ℕ
allocated_code_length = 9

abbrev pub allocated_code_space : ℕ
allocated_code_space = 62 ^ allocated_code_length

-- `ALPHABET[d]!`
unfoldable pub digit_char : ℕ → ℕ
digit_char d = get_or alphabet d 0

-- The loop of `encodeBase62Fixed`, from the last character to the first: what is left of the
-- value, and the characters already placed.
unfoldable pub fill : ℕ → ℕ → Text → Text × ℕ
fill zero remaining characters = (characters, remaining)
fill (suc n) remaining characters =
    fill n (remaining / 62) (digit_char (remaining % 62) ∷ characters)

finish : Text × ℕ → Result Text
finish (characters, remaining) =
    if remaining == 0 then ok characters else throw "value does not fit in the requested length"

unfoldable pub encode_base62_fixed : ℤ → ℕ → Result Text
unfolding finish
encode_base62_fixed (negsuc n) length = throw "value must be non-negative"
encode_base62_fixed (pos value) length = finish (fill length value [])
