-- ===== src/UrlPolicy.antt =====
-- src/domain/url-policy.ts: `SafeUrlPolicy`. The URL parser, `isIP` of node:net and the resolver are
-- parameters: `parse_url` is none when `new URL` throws, and `resolve` when the promise rejects.
pub mod Addresses
pub mod Ipv4
pub mod Ipv6
pub mod Validation
mod Tests
use wrap_link.UrlPolicy.Addresses.{
  is_unsafe_ipv4, is_unsafe_ipv6, to_lower, strip_brackets, ends_with, strip_last,
}
use wrap_link.Prelude.{
  ℕ, Bool, true, false, not, ◌&&◌, ◌||◌, List, [], ◌∷◌, Option, none, some, Text, codes, text_eq,
  length, any, JsValue, text, number, undefined, other_value, leb, ltb, ◌==◌, if◌then◌else◌,
}

pub record Url : Type 0 where
  pub protocol : Text
  pub username : Text
  pub password : Text
  pub hostname : Text
  pub href : Text

unfoldable pub is_local_hostname : Text → Bool
is_local_hostname hostname =
    let normalized = strip_last b'.' (to_lower hostname) in
    text_eq normalized (codes "localhost")
    || ends_with (codes ".localhost") normalized
    || ends_with (codes ".local") normalized

is_empty : Text → Bool
is_empty [] = true
is_empty (c ∷ s) = false

-- The host that is tested and resolved.
unfoldable pub host_of : Url → Text
host_of url = strip_last b'.' (strip_brackets (to_lower url.hostname))

module _ (is_ip : Text → ℕ) where
  unfoldable pub is_unsafe_ip_address : Text → Bool
  is_unsafe_ip_address address =
      if is_ip address == 4
      then is_unsafe_ipv4 address
      else if is_ip address == 6
      then is_unsafe_ipv6 address
      else true

  -- The addresses that the host stands for; none when it cannot be resolved.
  resolved_safe : Option (List Text) → Bool
  unfolding is_unsafe_ip_address
  resolved_safe none = false
  resolved_safe (some []) = false
  resolved_safe (some (a ∷ more)) = not (any is_unsafe_ip_address (a ∷ more))

  module _ (parse_url : Text → Option Url) (resolve : Text → Option (List Text)) where
    unfoldable pub validate_host : Url → Text → Option Text
    unfolding is_unsafe_ip_address resolved_safe is_empty is_local_hostname
    validate_host url hostname =
        if is_empty hostname || is_local_hostname hostname
        then none
        else if not (is_ip hostname == 0)
        then (if is_unsafe_ip_address hostname then none else some url.href)
        else if resolved_safe (resolve hostname)
        then some url.href
        else none

    unfoldable pub validate_url : Option Url → Option Text
    unfolding validate_host is_empty
    validate_url none = none
    validate_url (some url) =
        if not (text_eq url.protocol (codes "http:")) && not (text_eq url.protocol (codes "https:"))
        then none
        else if not (is_empty url.username) || not (is_empty url.password)
        then none
        else validate_host url (host_of url)

    unfoldable pub validate : JsValue → Option Text
    unfolding validate_url
    validate (text value) =
        if length value == 0 || ltb 2048 (length value)
        then none
        else validate_url (parse_url value)
    validate (number n) = none
    validate undefined = none
    validate other_value = none
