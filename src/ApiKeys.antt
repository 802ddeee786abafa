-- ===== src/ApiKeys.antt =====
-- src/security/api-key-authenticator.ts: `HashedApiKeyAuthenticator`. SHA-256 and the comparison of
-- two digests are Node's, and are arguments here.
pub mod Accepts
mod Tests
use wrap_link.Prelude.{
  ℕ, Bool, true, false, ◌||◌, List, [], ◌∷◌, map, Text, length, all, Result, ok, throw, ◌>>=◌, ◌>>◌,
  guard, not, JsValue, text, leb, ltb, if◌then◌else◌,
}

-- The digests that `hashApiKey` returns.
abbrev pub Digest : Type 0
Digest = List ℕ

pub record Authenticator : Type 0 where
  pub hashes : List Digest

is_empty : List Text → Bool
is_empty [] = true
is_empty (k ∷ ks) = false

module _ (hash_api_key : Text → Digest) where
  unfoldable pub new_authenticator : List Text → Result Authenticator
  unfolding is_empty
  new_authenticator api_keys = do
    guard (not (is_empty api_keys)) "At least one API key must be configured"
    guard (all (λ k. leb 32 (length k)) api_keys) "API keys must contain at least 32 characters"
    ok (record { hashes = map hash_api_key api_keys })

  module _ (timing_safe_equal : Digest → Digest → Bool) where
    -- The loop over every configured hash, with no early end.
    unfoldable pub compare_all : Digest → List Digest → Bool → Bool
    compare_all candidate [] authenticated = authenticated
    compare_all candidate (expected ∷ hashes) authenticated =
        compare_all candidate hashes (timing_safe_equal candidate expected || authenticated)

    authenticate_text : Authenticator → Text → Bool
    unfolding compare_all
    authenticate_text a candidate =
        if ltb (length candidate) 32 || ltb 256 (length candidate)
        then false
        else compare_all (hash_api_key candidate) a.hashes false

    unfoldable pub authenticate : Authenticator → JsValue → Bool
    unfolding authenticate_text
    authenticate a (text candidate) = authenticate_text a candidate
    authenticate a _ = false
