-- ===== src/UrlPolicy/Addresses.antt =====
-- src/domain/url-policy.ts: the tests on the text of an address.
use wrap_link.Prelude.{
  ℕ, ◌+◌, ◌-◌, ◌*◌, Bool, true, false, ◌&&◌, ◌||◌, List, [], ◌∷◌, Option, none, some, Text, codes,
  text_eq, length, all, map, drop, leb, ◌==◌, if◌then◌else◌,
}

unfoldable pub add_char : ℕ → List Text → List Text
add_char c [] = (c ∷ []) ∷ []
add_char c (part ∷ parts) = (c ∷ part) ∷ parts

-- `value.split(separator)` for one character.
unfoldable pub split : ℕ → Text → List Text
unfolding add_char
split separator [] = [] ∷ []
split separator (c ∷ s) =
    let rest = split separator s in if c == separator then [] ∷ rest else add_char c rest

unfoldable pub is_digit : ℕ → Bool
is_digit c = leb b'0' c && leb c b'9'

-- `/^\d{1,3}$/`
unfoldable pub is_octet_text : Text → Bool
unfolding is_digit
is_octet_text part = leb 1 (length part) && leb (length part) 3 && all is_digit part

-- `Number` of decimal digits.
unfoldable pub number_of : ℕ → Text → ℕ
number_of value [] = value
number_of value (c ∷ s) = number_of (value * 10 + (c - b'0')) s

-- An octet in the range, or none where the code has NaN or a number above 255.
unfoldable pub parse_octet : Text → Option ℕ
unfolding is_octet_text number_of
parse_octet part =
    if is_octet_text part && leb (number_of 0 part) 255 then some (number_of 0 part) else none

unfoldable pub add_octet : Option ℕ → Option (List ℕ) → Option (List ℕ)
add_octet (some n) (some ns) = some (n ∷ ns)
add_octet (some n) none = none
add_octet none ns = none

unfoldable pub octets_of : List Text → Option (List ℕ)
unfolding add_octet parse_octet
octets_of [] = some []
octets_of (part ∷ parts) = add_octet (parse_octet part) (octets_of parts)

unfoldable pub parse_ipv4 : Text → Option (List ℕ)
unfolding octets_of split
parse_ipv4 address =
    let parts = split b'.' address in if length parts == 4 then octets_of parts else none

unfoldable pub unsafe_octets : ℕ → ℕ → Bool
unsafe_octets first second =
    first == 0
    || first == 10
    || first == 127
    || (first == 100 && leb 64 second && leb second 127)
    || (first == 169 && second == 254)
    || (first == 172 && leb 16 second && leb second 31)
    || (first == 192 && second == 0)
    || (first == 192 && second == 168)
    || (first == 198 && (second == 18 || second == 19))
    || leb 224 first

unfoldable pub unsafe_parsed : Option (List ℕ) → Bool
unfolding unsafe_octets
unsafe_parsed none = true
unsafe_parsed (some []) = true
unsafe_parsed (some (first ∷ [])) = true
unsafe_parsed (some (first ∷ second ∷ rest)) = unsafe_octets first second

unfoldable pub is_unsafe_ipv4 : Text → Bool
unfolding unsafe_parsed parse_ipv4
is_unsafe_ipv4 address = unsafe_parsed (parse_ipv4 address)

-- `toLowerCase` on ASCII, of which hosts and addresses consist.
unfoldable pub lower : ℕ → ℕ
lower c = if leb b'A' c && leb c b'Z' then c + 32 else c

unfoldable pub to_lower : Text → Text
to_lower s = map lower s

-- `replace(/c$/, "")`
unfoldable pub strip_last : ℕ → Text → Text
strip_last c [] = []
strip_last c (d ∷ []) = if d == c then [] else d ∷ []
strip_last c (d ∷ e ∷ s) = d ∷ strip_last c (e ∷ s)

unfoldable pub strip_first : ℕ → Text → Text
strip_first c [] = []
strip_first c (d ∷ s) = if d == c then s else d ∷ s

-- `replace(/^\[|\]$/g, "")`
unfoldable pub strip_brackets : Text → Text
unfolding strip_last strip_first
strip_brackets s = strip_last b']' (strip_first b'[' s)

-- `value.split(c)[0]`
unfoldable pub up_to : ℕ → Text → Text
up_to c [] = []
up_to c (d ∷ s) = if d == c then [] else d ∷ up_to c s

unfoldable pub normalize_ipv6 : Text → Text
unfolding to_lower strip_brackets up_to
normalize_ipv6 address = strip_brackets (up_to b'%' (to_lower address))

-- What stands after the prefix.
unfoldable pub strip_prefix : Text → Text → Option Text
strip_prefix [] s = some s
strip_prefix (c ∷ p) [] = none
strip_prefix (c ∷ p) (d ∷ s) = if c == d then strip_prefix p s else none

abbrev pub is_some {ℓ} : {A : Type ℓ} → Option A → Bool
is_some none = false
is_some (some a) = true

unfoldable pub starts_with : Text → Text → Bool
unfolding strip_prefix
starts_with p s = is_some (strip_prefix p s)

unfoldable pub ends_with : Text → Text → Bool
ends_with p s = leb (length p) (length s) && text_eq (drop (length s - length p) s) p

-- The value of a hexadecimal digit in lower case.
unfoldable pub hex_digit : ℕ → Option ℕ
hex_digit c =
    if leb b'0' c && leb c b'9'
    then some (c - b'0')
    else if leb b'a' c && leb c b'f'
    then some (c - b'a' + 10)
    else none

unfoldable pub hex_from : Option ℕ → Text → Option ℕ
unfolding hex_digit
hex_from value [] = value
hex_from value (c ∷ s) = elim (hex_digit c) [
  | none ↦ value
  | some d ↦ hex_from (some (elim value [ none ↦ d | some v ↦ v * 16 + d ])) s
]

-- `parseInt(group, 16)` of a group of an address, which has neither blanks, a sign nor `0x`; none
-- for NaN.
unfoldable pub parse_hex : Text → Option ℕ
unfolding hex_from
parse_hex group = hex_from none group

-- `value >= 0xfe80 && value <= 0xfebf`
abbrev pub is_link_local : Option ℕ → Bool
is_link_local none = false
is_link_local (some value) = leb 0xfe80 value && leb value 0xfebf

unfoldable pub keep_dotted : Option Text → Option Text
unfolding split is_octet_text
keep_dotted none = none
keep_dotted (some rest) =
    let parts = split b'.' rest in
    if length parts == 4 && all is_octet_text parts then some rest else none

-- `/^::ffff:(\d{1,3}(?:\.\d{1,3}){3})$/`
unfoldable pub mapped_ipv4 : Text → Option Text
unfolding keep_dotted strip_prefix
mapped_ipv4 normalized = keep_dotted (strip_prefix (codes "::ffff:") normalized)

unfoldable pub unsafe_mapped : Option Text → Bool
unfolding is_unsafe_ipv4
unsafe_mapped none = false
unsafe_mapped (some address) = is_unsafe_ipv4 address

unfoldable pub is_unsafe_normalized : Text → Bool
unfolding starts_with up_to parse_hex mapped_ipv4 unsafe_mapped
is_unsafe_normalized normalized =
    text_eq normalized (codes "::")
    || text_eq normalized (codes "::1")
    || starts_with (codes "fc") normalized
    || starts_with (codes "fd") normalized
    || is_link_local (parse_hex (up_to b':' normalized))
    || unsafe_mapped (mapped_ipv4 normalized)

unfoldable pub is_unsafe_ipv6 : Text → Bool
unfolding normalize_ipv6 is_unsafe_normalized
is_unsafe_ipv6 address = is_unsafe_normalized (normalize_ipv6 address)
