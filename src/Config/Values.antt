-- ===== src/Config/Values.antt =====
-- What the readers of single variables return.
use wrap_link.Config.{
  LinkWriteMode, sync, write_behind, trim, is_long, require_secret, require_given, keep_given,
  list_of,
}
use wrap_link.Prelude.{
  ℕ, ◌^◌, ◌≤◌, ◌<◌, ◌≡◌, refl, ap, subst, inl, inr, Bool, true, false, List, [], ◌∷◌, Option, none,
  some, Text, String, length, map, All, Result, ok, throw, guard, >>=-eq-ok, ◌>>◌, JsNumber,
  integer, pos, is_positive, is_positive_bounds, is_safe_integer, at_least, nat_value, ltb, leb,
  ◌==◌, Bool-cases, if◌then◌else◌, arith,
}
use wrap_link.UrlPolicy.Addresses.{split}

-- A positive safe integer.
abbrev pub IsCount : ℕ → Type 0
IsCount n = (1 ≤ n) × (n < 2 ^ 53)

abbrev pub count_value : Result ℕ → ℕ → ℕ
count_value (ok n) other = n
count_value (throw e) other = other

abbrev pub keys_value : Result (List Text) → List Text → List Text
keys_value (ok keys) other = keys
keys_value (throw e) other = other

-- The secret that write-behind mode needs.
abbrev pub HasSecret : LinkWriteMode → Option Text → Type 0
HasSecret sync secret = Unit
HasSecret write_behind secret = (s : Text) × (secret ≡ some s) × (32 ≤ length s)

pub IsCount-is_positive : (n : ℕ) → IsCount n → is_positive (integer (pos n)) ≡ true
unfolding is_positive is_safe_integer at_least
IsCount-is_positive n h = ground arith

pub guard-true : (b : Bool) (message : String) {u : Unit {0}} → guard b message ≡ ok u → b ≡ true
guard-true true message h = refl
guard-true false message h = cc

pub numeral-IsCount : (n : ℕ) → leb 1 n ≡ true → ltb n (2 ^ 53) ≡ true → IsCount n
numeral-IsCount n low high = ground arith

-- A guard whose test holds goes on.
pub passes :
    {A : Type 0} (n : ℕ) (message : String) (rest : Result A)
    → IsCount n
    → (guard (is_positive (integer (pos n))) message >> rest) ≡ rest
passes n message rest h = ap (λ b. guard b message >> rest) (IsCount-is_positive n h)

pub checked-IsCount :
    (m : JsNumber) (n : ℕ)
    → (do guard (is_positive m) "must be a positive integer"; ok (nat_value m)) ≡ ok n
    → IsCount n
checked-IsCount m n h =
    let (u, passed, e) = >>=-eq-ok (guard (is_positive m) "must be a positive integer") _ h in
    subst IsCount (ap (λ r. count_value r n) e) (is_positive_bounds m (guard-true _ _ passed))

pub chosen-IsCount :
    (blank : Bool) (fallback n : ℕ) (m : JsNumber)
    → IsCount fallback
    → (if blank
        then ok fallback
        else do guard (is_positive m) "must be a positive integer"; ok (nat_value m))
      ≡ ok n
    → IsCount n
chosen-IsCount true fallback n m f h = subst IsCount (ap (λ r. count_value r n) h) f
chosen-IsCount false fallback n m f h = checked-IsCount m n h

IsLong : (secret : Option Text) → is_long secret ≡ true → HasSecret write_behind secret
unfolding is_long
IsLong none h = cc
IsLong (some s) h = (s, refl, ground arith)

pub require_secret-HasSecret :
    (mode : LinkWriteMode) (secret : Option Text) {u : Unit {0}}
    → require_secret mode secret ≡ ok u
    → HasSecret mode secret
unfolding require_secret
require_secret-HasSecret sync secret h = tt
require_secret-HasSecret write_behind secret h = IsLong secret (guard-true _ _ h)

-- The keys are given, and none is blank.
abbrev pub AreKeys : List Text → Type 0
AreKeys [] = ⊥
AreKeys (key ∷ keys) = All (λ k. 1 ≤ length k) (key ∷ keys)

pub keep_given-All : (values : List Text) → All (λ k. 1 ≤ length k) (keep_given values)
unfolding keep_given
keep_given-All [] = tt
keep_given-All (value ∷ values) = elim (Bool-cases (length value == 0)) [
  | inl blank ↦ rw blank (keep_given-All values)
  | inr given ↦ rw given (ground arith, keep_given-All values)
]

pub list_of-All : (raw : Option Text) → All (λ k. 1 ≤ length k) (list_of raw)
unfolding list_of
list_of-All none = tt
list_of-All (some raw) = keep_given-All (map trim (split b',' raw))

pub require_given-AreKeys :
    (values keys : List Text)
    → All (λ k. 1 ≤ length k) values
    → require_given values ≡ ok keys
    → AreKeys keys
unfolding require_given
require_given-AreKeys [] keys a h = cc
require_given-AreKeys (value ∷ values) keys a h = subst AreKeys (ap (λ r. keys_value r keys) h) a
