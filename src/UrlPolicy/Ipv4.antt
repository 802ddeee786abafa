-- ===== src/UrlPolicy/Ipv4.antt =====
-- The IPv4 test against the address blocks that it stands for.
use wrap_link.Prelude.{
  ℕ, ◌+◌, ◌-◌, ◌*◌, ◌/◌, ◌^◌, ◌<◌, ◌≡◌, refl, sym, ap, ◌∙◌, Bool, true, false, not, ◌&&◌, List, [],
  ◌∷◌, ◌++◌, Option, none, some, Text, all, any, ◌==◌, ==_iff, all_below, all_below_sound, arith,
}
use wrap_link.Keys.{decimal}
use wrap_link.UrlPolicy.Addresses.{
  split, add_char, parse_octet, add_octet, octets_of, parse_ipv4, unsafe_octets, unsafe_parsed,
  is_unsafe_ipv4,
}

-- The usual form of an address.
abbrev pub dotted : ℕ → ℕ → ℕ → ℕ → Text
dotted a b c d = decimal a ++ b'.' ∷ (decimal b ++ b'.' ∷ (decimal c ++ b'.' ∷ decimal d))

-- A block is its first address, as four octets, and the length of its prefix.
abbrev pub address : ℕ → ℕ → ℕ → ℕ → ℕ
address a b c d = a * 2 ^ 24 + b * 2 ^ 16 + c * 2 ^ 8 + d

abbrev pub in_block : ℕ → ℕ × ℕ → Bool
in_block ip (base, length') = ip / 2 ^ (32 - length') == base / 2 ^ (32 - length')

-- 0/8, 10/8, 100.64/10, 127/8, 169.254/16, 172.16/12, 192.0/16, 192.168/16, 198.18/15, 224/4, 240/4
abbrev pub blocks : List (ℕ × ℕ)
blocks =
    (address 0 0 0 0, 8)
    ∷ (address 10 0 0 0, 8)
    ∷ (address 100 64 0 0, 10)
    ∷ (address 127 0 0 0, 8)
    ∷ (address 169 254 0 0, 16)
    ∷ (address 172 16 0 0, 12)
    ∷ (address 192 0 0 0, 16)
    ∷ (address 192 168 0 0, 16)
    ∷ (address 198 18 0 0, 15)
    ∷ (address 224 0 0 0, 4)
    ∷ (address 240 0 0 0, 4)
    ∷ []

abbrev pub is_reserved : ℕ → Bool
is_reserved ip = any (in_block ip) blocks

-- The same with the first two octets only.
in_short : ℕ → ℕ × ℕ → Bool
in_short pair (base, length') = pair / 2 ^ (16 - length') == base / 2 ^ 16 / 2 ^ (16 - length')

short_reserved : ℕ → Bool
unfolding in_short
short_reserved pair = any (in_short pair) blocks

unfoldable pub no_dot : ℕ → Bool
no_dot c = not (c == b'.')

is_number : ℕ → Option ℕ → Bool
is_number n none = false
is_number n (some m) = m == n

pub both : (x y : Bool) → (x && y) ≡ true → (x ≡ true) × (y ≡ true)
both true y h = (refl, h)
both false y h = cc

pub not-true : (x : Bool) → not x ≡ true → x ≡ false
not-true true h = cc
not-true false h = refl

octet_table :
    all_below 256 (λ n. is_number n (parse_octet (decimal n)) && all no_dot (decimal n)) ≡ true
unfolding all_below parse_octet decimal no_dot is_number
octet_table = refl

number-some : (n : ℕ) (o : Option ℕ) → is_number n o ≡ true → o ≡ some n
unfolding is_number
number-some n none h = cc
number-some n (some m) h = ap some ((==_iff m n).0 h)

octet_parsed :
    (n : ℕ) → n < 256 → (parse_octet (decimal n) ≡ some n) × (all no_dot (decimal n) ≡ true)
octet_parsed n h =
    let t =
      all_below_sound 256 (λ n. is_number n (parse_octet (decimal n)) && all no_dot (decimal n)) n
        octet_table h in
    let (l, r) = both (is_number n (parse_octet (decimal n))) (all no_dot (decimal n)) t in
    (number-some n _ l, r)

split_part : (p s : Text) → all no_dot p ≡ true → split b'.' (p ++ b'.' ∷ s) ≡ p ∷ split b'.' s
unfolding split add_char no_dot
split_part [] s h = refl
split_part (c ∷ p) s h =
    let (l, r) = both (no_dot c) (all no_dot p) h in
    let plain : (c == b'.') ≡ false = not-true (c == b'.') l in rw (split_part p s r, plain) refl

pub split_last : (p : Text) → all no_dot p ≡ true → split b'.' p ≡ p ∷ []
unfolding split add_char no_dot
split_last [] h = refl
split_last (c ∷ p) h =
    let (l, r) = both (no_dot c) (all no_dot p) h in
    let plain : (c == b'.') ≡ false = not-true (c == b'.') l in rw (split_last p r, plain) refl

pub split-dotted :
    (a b c d : ℕ)
    → a < 256
    → b < 256
    → c < 256
    → d < 256
    → split b'.' (dotted a b c d) ≡ decimal a ∷ decimal b ∷ decimal c ∷ decimal d ∷ []
split-dotted a b c d ha hb hc hd =
    rw
      (
        split_part (decimal a) (decimal b ++ b'.' ∷ (decimal c ++ b'.' ∷ decimal d))
            (octet_parsed a ha).1,
        split_part (decimal b) (decimal c ++ b'.' ∷ decimal d) (octet_parsed b hb).1,
        split_part (decimal c) (decimal d) (octet_parsed c hc).1,
        split_last (decimal d) (octet_parsed d hd).1,
      )
      refl

parse_ipv4-dotted :
    (a b c d : ℕ)
    → a < 256
    → b < 256
    → c < 256
    → d < 256
    → parse_ipv4 (dotted a b c d) ≡ some (a ∷ b ∷ c ∷ d ∷ [])
unfolding parse_ipv4 octets_of add_octet
parse_ipv4-dotted a b c d ha hb hc hd = rw (split-dotted a b c d ha hb hc hd) (
    rw ((octet_parsed a ha).0, (octet_parsed b hb).0, (octet_parsed c hc).0, (octet_parsed d hd).0)
      refl)

same : Bool → Bool → Bool
same true y = y
same false y = not y

same-eq : (x y : Bool) → same x y ≡ true → x ≡ y
unfolding same
same-eq true true h = refl
same-eq true false h = cc
same-eq false true h = cc
same-eq false false h = refl

short_table :
    all_below 256
      (λ a. all_below 256 (λ b. same (unsafe_octets a b) (short_reserved (a * 256 + b))))
    ≡ true
unfolding all_below unsafe_octets short_reserved in_short same
short_table = refl

module _ (a b c d : ℕ) (hb : b < 256) (hc : c < 256) (hd : d < 256) where
  -- A prefix of at most 16 bits, from the first two octets.
  reserved-short : is_reserved (address a b c d) ≡ short_reserved (a * 256 + b)
  unfolding short_reserved in_short
  reserved-short =
      let ip = address a b c d in
      let pair = a * 256 + b in
      let bits_4 : ip / 2 ^ 28 ≡ pair / 2 ^ 12 = omega arith in
      let bits_8 : ip / 2 ^ 24 ≡ pair / 2 ^ 8 = omega arith in
      let bits_10 : ip / 2 ^ 22 ≡ pair / 2 ^ 6 = omega arith in
      let bits_12 : ip / 2 ^ 20 ≡ pair / 2 ^ 4 = omega arith in
      let bits_15 : ip / 2 ^ 17 ≡ pair / 2 ^ 1 = omega arith in
      let bits_16 : ip / 2 ^ 16 ≡ pair / 2 ^ 0 = omega arith in
      rw (bits_4, bits_8, bits_10, bits_12, bits_15, bits_16) refl

-- On the usual form of an address, `isUnsafeIpv4` is true exactly if the address stands in one of
-- the blocks 0/8, 10/8, 100.64/10, 127/8, 169.254/16, 172.16/12, 192.0/16, 192.168/16, 198.18/15,
-- 224/4 and 240/4.
pub is_unsafe_ipv4-dotted :
    (a b c d : ℕ)
    → a < 256
    → b < 256
    → c < 256
    → d < 256
    → is_unsafe_ipv4 (dotted a b c d) ≡ is_reserved (address a b c d)
unfolding is_unsafe_ipv4 unsafe_parsed
is_unsafe_ipv4-dotted a b c d ha hb hc hd =
    let row =
      all_below_sound 256
        (λ a'. all_below 256 (λ b'. same (unsafe_octets a' b') (short_reserved (a' * 256 + b')))) a
        short_table ha in
    let cell =
      all_below_sound 256 (λ b'. same (unsafe_octets a b') (short_reserved (a * 256 + b'))) b row
        hb in
    ap unsafe_parsed (parse_ipv4-dotted a b c d ha hb hc hd)
    ∙ same-eq (unsafe_octets a b) (short_reserved (a * 256 + b)) cell
    ∙ sym (reserved-short a b c d hb hc hd)
