-- ===== src/Codes/Tests.antt =====
-- `generateCode` on given bytes, and the theorems at inputs that meet their hypotheses.
use wrap_link.Prelude.{
  ℕ, ◌≡◌, refl, not, ◌&&◌, true, List, [], ◌∷◌, none, some, Text, codes, length, get_or, take, leb,
  leb→le, ◌==◌, if◌then◌else◌, arith,
}
use wrap_link.PendingLinks.{is_link_code}
use wrap_link.Codes.{alphabet, letter, is_rejected, generate_code}
use wrap_link.Codes.Letters.{letters, all_letters, generate_code_lem}
use wrap_link.Codes.Bias.{count_below, four_bytes_each, generate_code-AreAccepted}

-- The second answer is needed since two bytes of the first are rejected.
abbrev answers : List (List ℕ)
answers = (250 ∷ 0 ∷ 61 ∷ 248 ∷ []) ∷ (62 ∷ 247 ∷ 10 ∷ 11 ∷ []) ∷ []

generated : generate_code 4 answers ≡ some (codes "0z0z")
unfolding generate_code letter
generated = refl

not_enough : generate_code 7 answers ≡ none
unfolding generate_code letter
not_enough = refl

generate_code_lem_example :
    generate_code 4 answers
    ≡ (if leb 4 (length (all_letters answers)) then some (take 4 (all_letters answers)) else none)
generate_code_lem_example = generate_code_lem 4 answers

enough : leb 4 (length (all_letters answers)) ≡ true
unfolding all_letters letters letter
enough = refl

generate_code-AreAccepted_example :
    (code : Text) × (generate_code 4 answers ≡ some code)
    × (length code ≡ 4)
    × (is_link_code code ≡ true)
generate_code-AreAccepted_example =
    generate_code-AreAccepted 4 answers (omega arith) (omega arith) (leb→le 4 _ enough)

four_bytes_each_example :
    count_below 256 (λ byte. not (is_rejected byte) && letter byte == get_or alphabet 61 0) ≡ 4
four_bytes_each_example = four_bytes_each 61 (omega arith)
