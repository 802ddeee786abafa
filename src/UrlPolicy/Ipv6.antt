-- ===== src/UrlPolicy/Ipv6.antt =====
-- The IPv6 test on the addresses that stand for IPv4 addresses.
use wrap_link.Prelude.{
  ℕ, ◌<◌, ◌≡◌, refl, sym, ap, ◌∙◌, inl, inr, Bool, true, false, not, ◌&&◌, ◌||◌, [], ◌∷◌, ◌++◌,
  some, Text, codes, text_eq, all, all-append, leb, leb→le, ◌≢◌, ◌==◌, ==_iff, all_below,
  all_below_sound, arith, Bool-cases,
}
use wrap_link.Keys.{decimal}
use wrap_link.UrlPolicy.Addresses.{
  split, is_octet_text, lower, to_lower, strip_last, strip_first, strip_brackets, up_to,
  normalize_ipv6, strip_prefix, is_some, starts_with, hex_digit, hex_from, parse_hex, keep_dotted,
  mapped_ipv4, unsafe_mapped, is_unsafe_normalized, is_unsafe_ipv6,
}
use wrap_link.UrlPolicy.Ipv4.{
  dotted, address, is_reserved, is_unsafe_ipv4-dotted, both, not-true, no_dot, split_last,
  split-dotted,
}

-- A character that the normalization leaves as it is.
plain : ℕ → Bool
plain c = (lower c == c) && (not (c == b'%') && not (c == b']'))

plain_parts :
    (c : ℕ) → plain c ≡ true → (lower c ≡ c) × ((c == b'%') ≡ false) × ((c == b']') ≡ false)
unfolding plain
plain_parts c h =
    let (same, other) = both (lower c == c) (not (c == b'%') && not (c == b']')) h in
    let (percent, bracket) = both (not (c == b'%')) (not (c == b']')) other in
    ((==_iff (lower c) c).0 same, not-true (c == b'%') percent, not-true (c == b']') bracket)

abbrev pub is_hex_digit : ℕ → Bool
is_hex_digit c = is_some (hex_digit c)

to_lower-plain : (s : Text) → all plain s ≡ true → to_lower s ≡ s
unfolding to_lower
to_lower-plain [] h = refl
to_lower-plain (c ∷ s) h =
    let (l, r) = both (plain c) (all plain s) h in rw ((plain_parts c l).0, to_lower-plain s r) refl

up_to-plain : (s : Text) → all plain s ≡ true → up_to b'%' s ≡ s
unfolding up_to
up_to-plain [] h = refl
up_to-plain (c ∷ s) h =
    let (l, r) = both (plain c) (all plain s) h in rw ((plain_parts c l).1, up_to-plain s r) refl

strip_last-plain : (s : Text) → all plain s ≡ true → strip_last b']' s ≡ s
unfolding strip_last
strip_last-plain [] h = refl
strip_last-plain (c ∷ []) h = let (l, _) = both (plain c) true h in rw (plain_parts c l).2 refl
strip_last-plain (c ∷ d ∷ s) h =
    let (_, r) = both (plain c) (all plain (d ∷ s)) h in rw (strip_last-plain (d ∷ s) r) refl

normalize_ipv6-plain :
    (s : Text) → all plain (b':' ∷ s) ≡ true → normalize_ipv6 (b':' ∷ s) ≡ b':' ∷ s
unfolding normalize_ipv6 strip_brackets strip_first
normalize_ipv6-plain s h =
    ap (λ t. strip_brackets (up_to b'%' t)) (to_lower-plain (b':' ∷ s) h)
    ∙ ap strip_brackets (up_to-plain (b':' ∷ s) h)
    ∙ strip_last-plain (b':' ∷ s) h

prefix_plain : (s : Text) → all plain s ≡ true → all plain (codes "::ffff:" ++ s) ≡ true
unfolding plain lower
prefix_plain s h = h

-- After the prefix only the dotted form counts.
is_unsafe_ipv6-mapped :
    (s : Text)
    → all plain s ≡ true
    → is_unsafe_ipv6 (codes "::ffff:" ++ s) ≡ unsafe_mapped (keep_dotted (some s))
unfolding is_unsafe_ipv6 is_unsafe_normalized mapped_ipv4 strip_prefix starts_with parse_hex
    hex_from up_to text_eq
is_unsafe_ipv6-mapped s h =
    ap is_unsafe_normalized (normalize_ipv6-plain (codes ":ffff:" ++ s) (prefix_plain s h))

hex_table : all_below 103 (λ c. not (is_hex_digit c) || (plain c && no_dot c)) ≡ true
unfolding all_below plain no_dot hex_digit lower
hex_table = refl

true-ne-false : true ≢ false
true-ne-false e = cc

hex_below : (c : ℕ) → is_hex_digit c ≡ true → c < 103
unfolding hex_digit
hex_below c h = elim (Bool-cases (leb b'0' c && leb c b'9')) [
  | inl decimal_digit ↦
      omega (arith, leb→le c b'9' (both (leb b'0' c) (leb c b'9') decimal_digit).1)
  | inr no_decimal ↦ elim (Bool-cases (leb b'a' c && leb c b'f')) [
    | inl letter ↦ omega (arith, leb→le c b'f' (both (leb b'a' c) (leb c b'f') letter).1)
    | inr no_letter ↦ absurd (true-ne-false (sym h ∙ rw (no_decimal, no_letter) refl))
  ]
]

-- Hexadecimal digits are plain and no dots.
digits_plain : (s : Text) → all is_hex_digit s ≡ true → (all plain s ≡ true) × (all no_dot s ≡ true)
digits_plain [] h = (refl, refl)
digits_plain (c ∷ s) h =
    let (l, r) = both (is_hex_digit c) (all is_hex_digit s) h in
    let (ps, ds) = digits_plain s r in
    let t : (not (is_hex_digit c) || (plain c && no_dot c)) ≡ true =
      all_below_sound 103 (λ d. not (is_hex_digit d) || (plain d && no_dot d)) c hex_table
        (hex_below c l) in
    let u : (plain c && no_dot c) ≡ true = ap (λ b. not b || (plain c && no_dot c)) (sym l) ∙ t in
    let (p, d) = both (plain c) (no_dot c) u in (rw (p, ps) refl, rw (d, ds) refl)

colon_plain : (s : Text) → all plain s ≡ true → all plain (b':' ∷ s) ≡ true
unfolding plain lower
colon_plain s h = h

colon_dot : (s : Text) → all no_dot s ≡ true → all no_dot (b':' ∷ s) ≡ true
unfolding no_dot
colon_dot s h = h

-- An IPv4 address in IPv6 form, written with two hexadecimal groups as a URL parser writes it, is
-- never reported as unsafe, whichever address it is: 127.0.0.1 is not, in the form ::ffff:7f00:1.
pub is_unsafe_ipv6-hex :
    (high low : Text)
    → all is_hex_digit high ≡ true
    → all is_hex_digit low ≡ true
    → is_unsafe_ipv6 (codes "::ffff:" ++ (high ++ b':' ∷ low)) ≡ false
unfolding keep_dotted unsafe_mapped
is_unsafe_ipv6-hex high low h l =
    let (ph, dh) = digits_plain high h in
    let (pl, dl) = digits_plain low l in
    let s = high ++ b':' ∷ low in
    let one = split_last s (all-append no_dot high (b':' ∷ low) ∙ rw (dh, colon_dot low dl) refl) in
    is_unsafe_ipv6-mapped s (all-append plain high (b':' ∷ low) ∙ rw (ph, colon_plain low pl) refl)
    ∙ rw one refl

octet_table : all_below 256 (λ n. all plain (decimal n) && is_octet_text (decimal n)) ≡ true
unfolding all_below plain lower decimal is_octet_text
octet_table = refl

octet_plain :
    (n : ℕ) → n < 256 → (all plain (decimal n) ≡ true) × (is_octet_text (decimal n) ≡ true)
octet_plain n h =
    both (all plain (decimal n)) (is_octet_text (decimal n)) (
      all_below_sound 256 (λ n. all plain (decimal n) && is_octet_text (decimal n)) n octet_table h)

and_dot :
    (n : ℕ) (s : Text) → n < 256 → all plain s ≡ true → all plain (decimal n ++ b'.' ∷ s) ≡ true
unfolding plain lower
and_dot n s h p = all-append plain (decimal n) (b'.' ∷ s) ∙ rw ((octet_plain n h).0, p) refl

kept :
    (s : Text) {p q r t : Text}
    → split b'.' s ≡ p ∷ q ∷ r ∷ t ∷ []
    → all is_octet_text (p ∷ q ∷ r ∷ t ∷ []) ≡ true
    → keep_dotted (some s) ≡ some s
unfolding keep_dotted
kept s e h = rw (e, h) refl

-- An IPv4 address in IPv6 form with the last four bytes in dotted form is reported as unsafe
-- exactly if the IPv4 address stands in one of the blocks of the IPv4 test.
pub is_unsafe_ipv6-dotted :
    (a b c d : ℕ)
    → a < 256
    → b < 256
    → c < 256
    → d < 256
    → is_unsafe_ipv6 (codes "::ffff:" ++ dotted a b c d) ≡ is_reserved (address a b c d)
unfolding unsafe_mapped
is_unsafe_ipv6-dotted a b c d ha hb hc hd =
    let last = and_dot c (decimal d) hc (octet_plain d hd).0 in
    let whole =
      and_dot a (decimal b ++ b'.' ∷ (decimal c ++ b'.' ∷ decimal d)) ha
        (and_dot b (decimal c ++ b'.' ∷ decimal d) hb last) in
    let parts = split-dotted a b c d ha hb hc hd in
    let tests : all is_octet_text (decimal a ∷ decimal b ∷ decimal c ∷ decimal d ∷ []) ≡ true =
      rw ((octet_plain a ha).1, (octet_plain b hb).1, (octet_plain c hc).1, (octet_plain d hd).1)
        refl in
    is_unsafe_ipv6-mapped (dotted a b c d) whole
    ∙ ap unsafe_mapped (kept (dotted a b c d) parts tests)
    ∙ is_unsafe_ipv4-dotted a b c d ha hb hc hd
