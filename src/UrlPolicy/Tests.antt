-- ===== src/UrlPolicy/Tests.antt =====
-- The policy on concrete addresses and URLs, and the theorems at inputs that meet their hypotheses.
use wrap_link.Prelude.{
  ℕ, ◌≡◌, ◌≤◌, refl, false, List, [], ◌∷◌, Option, some, Text, codes, text_eq, length, inl, text,
  arith, if◌then◌else◌,
}
use wrap_link.Keys.{decimal}
use wrap_link.UrlPolicy.Addresses.{
  strip_last, strip_brackets, to_lower, lower, ends_with, hex_digit, is_unsafe_ipv4, is_unsafe_ipv6,
}
use wrap_link.UrlPolicy.Ipv4.{dotted, address, is_reserved, is_unsafe_ipv4-dotted}
use wrap_link.UrlPolicy.Ipv6.{is_unsafe_ipv6-hex}
use wrap_link.UrlPolicy.Validation.{Accepted, validate_sound, validate_no_reserved}
use wrap_link.UrlPolicy.{Url, host_of, validate}

is_unsafe_ipv4-dotted_example :
    is_unsafe_ipv4 (dotted 172 31 0 9) ≡ is_reserved (address 172 31 0 9)
is_unsafe_ipv4-dotted_example =
    is_unsafe_ipv4-dotted 172 31 0 9 (omega arith) (omega arith) (omega arith) (omega arith)

-- 127.0.0.1 in the form that a URL parser gives it.
is_unsafe_ipv6-hex_example : is_unsafe_ipv6 (codes "::ffff:7f00:1") ≡ false
unfolding hex_digit
is_unsafe_ipv6-hex_example = is_unsafe_ipv6-hex (codes "7f00") (codes "1") refl refl

-- `isIP` on the texts below.
abbrev is_ip : Text → ℕ
is_ip s = if text_eq s (dotted 93 184 216 34) then 4 else 0

abbrev page : Url
page = record {
  protocol = codes "https:";
  username = [];
  password = [];
  hostname = codes "example.com";
  href = codes "https://example.com/";
}

abbrev parse_url : Text → Option Url
parse_url s = some page

abbrev resolve : Text → Option (List Text)
resolve s = some (dotted 93 184 216 34 ∷ [])

page_valid :
    validate is_ip parse_url resolve (text (codes "https://example.com"))
    ≡ some (codes "https://example.com/")
unfolding validate text_eq decimal host_of strip_last strip_brackets to_lower lower ends_with
    is_unsafe_ipv4
page_valid = refl

validate_sound_example :
    (s : Text) × (url : Url) × (text (codes "https://example.com") ≡ text s)
    × (1 ≤ length s)
    × (length s ≤ 2048)
    × (parse_url s ≡ some url)
    × (some url.href ≡ some (codes "https://example.com/"))
    × Accepted is_ip parse_url resolve url
validate_sound_example =
    validate_sound is_ip parse_url resolve (text (codes "https://example.com"))
      (codes "https://example.com/") page_valid

validate_no_reserved_example : is_reserved (address 93 184 216 34) ≡ false
unfolding text_eq decimal host_of strip_last strip_brackets to_lower lower
validate_no_reserved_example =
    validate_no_reserved is_ip parse_url resolve (codes "https://example.com")
      (codes "https://example.com/") page (dotted 93 184 216 34 ∷ []) 93 184 216 34 page_valid refl
      refl (inl refl) refl (omega arith) (omega arith) (omega arith) (omega arith)
