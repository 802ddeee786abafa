-- ===== src/ApiKeys/Tests.antt =====
-- The authenticator with a digest that adds up the characters, and the theorems at its inputs.
use wrap_link.Prelude.{
  ℕ, ◌+◌, ◌≤◌, ◌≡◌, ◌↔◌, refl, true, [], ◌∷◌, Text, length, replicate, text, In, text_eq,
  text_eq_iff,
}
use wrap_link.ApiKeys.{Digest, Authenticator, new_authenticator, authenticate}
use wrap_link.ApiKeys.Accepts.{authenticate_iff}

sum : Text → ℕ
sum [] = 0
sum (c ∷ s) = c + sum s

abbrev digest : Text → Digest
digest s = sum s ∷ []

abbrev key : Text
key = replicate 40 b'k'

abbrev one_key : Authenticator
one_key = record { hashes = digest key ∷ [] }

accepted : authenticate digest text_eq one_key (text key) ≡ true
unfolding authenticate sum text_eq
accepted = refl

authenticate_iff_example : (authenticate digest text_eq one_key (text key) ≡ true) ↔ (
    (32 ≤ length key)
    × (length key ≤ 256)
    × ((k : Text) × In k (key ∷ []) × (digest key ≡ digest k)))
unfolding new_authenticator
authenticate_iff_example = authenticate_iff digest text_eq text_eq_iff (key ∷ []) one_key key refl
