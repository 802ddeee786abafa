-- ===== src/UrlPolicy/Validation.antt =====
-- What a URL that `validate` accepts is like.
use wrap_link.Prelude.{
  ℕ, ◌<◌, ◌≤◌, ◌≡◌, ◌≢◌, ◌⊎◌, inl, inr, refl, sym, ap, subst, ◌∙◌, Bool, true, false, not, ◌&&◌,
  ◌||◌, List, [], ◌∷◌, Option, none, some, Text, codes, text_eq, text_eq_iff, length, any, All, In,
  JsValue, text, number, undefined, other_value, ltb, ◌==◌, if◌then◌else◌, arith,
}
use wrap_link.UrlPolicy.Ipv4.{dotted, address, is_reserved, is_unsafe_ipv4-dotted}
use wrap_link.UrlPolicy.{
  Url, is_empty, is_local_hostname, host_of, is_unsafe_ip_address, resolved_safe, validate_host,
  validate_url, validate,
}

refused {ℓ} :
    {A : Type ℓ} {y : A} (test : Bool) (rest : Option A)
    → (if test then none else rest) ≡ some y
    → (test ≡ false) × (rest ≡ some y)
refused true rest h = cc
refused false rest h = (refl, h)

required {ℓ} :
    {A : Type ℓ} {y : A} (test : Bool) (rest : Option A)
    → (if test then rest else none) ≡ some y
    → (test ≡ true) × (rest ≡ some y)
required true rest h = (refl, h)
required false rest h = cc

neither : (x y : Bool) → (x || y) ≡ false → (x ≡ false) × (y ≡ false)
neither true y h = cc
neither false y h = (refl, h)

not-false : (x : Bool) → not x ≡ false → x ≡ true
not-false true h = refl
not-false false h = cc

not_both : (x y : Bool) → (not x && not y) ≡ false → (x ≡ true) ⊎ (y ≡ true)
not_both true y h = inl refl
not_both false y h = inr (not-false y h)

empty-eq : (s : Text) → not (is_empty s) ≡ false → s ≡ []
unfolding is_empty
empty-eq [] h = refl
empty-eq (c ∷ s) h = cc

All-any : {A : Type 0} (p : A → Bool) (xs : List A) → any p xs ≡ false → All (λ x. p x ≡ false) xs
All-any p [] h = tt
All-any p (x ∷ xs) h = let (l, r) = neither (p x) (any p xs) h in (l, All-any p xs r)

All-In : {A : Type 0} (P : A → Type 0) (x : A) (xs : List A) → All P xs → In x xs → P x
All-In P x (y ∷ xs) a (inl e) = subst P (sym e) a.0
All-In P x (y ∷ xs) a (inr i) = All-In P x xs a.1 i
All-In P x [] a i = absurd i

true-ne-false : true ≢ false
true-ne-false e = cc

false-ne-true : false ≢ true
false-ne-true e = cc

not-true : (x : Bool) → not x ≡ true → x ≡ false
not-true true h = cc
not-true false h = refl

none-ne-some : {s : Text} → ◌≢◌ {A = Option Text} none (some s)
none-ne-some e = cc

module _ (is_ip : Text → ℕ) (parse_url : Text → Option Url)
    (resolve : Text → Option (List Text)) where
  -- Where a link to the host leads: to the address that the host is, or to those it resolves to.
  abbrev pub destinations : Text → Option (List Text)
  destinations host = if is_ip host == 0 then resolve host else some (host ∷ [])

  -- There are addresses, and none is unsafe.
  abbrev pub AllSafe : Option (List Text) → Type 0
  AllSafe none = ⊥
  AllSafe (some []) = ⊥
  AllSafe (some (a ∷ more)) = All (λ b. is_unsafe_ip_address is_ip b ≡ false) (a ∷ more)

  pub record Accepted (url : Url) : Type 0 where
    pub web : (url.protocol ≡ codes "http:") ⊎ (url.protocol ≡ codes "https:")
    pub no_username : url.username ≡ []
    pub no_password : url.password ≡ []
    pub not_local : is_local_hostname (host_of url) ≡ false
    pub safe : AllSafe (destinations (host_of url))

  resolved-AllSafe : (o : Option (List Text)) → resolved_safe is_ip o ≡ true → AllSafe o
  unfolding resolved_safe
  resolved-AllSafe none h = absurd (false-ne-true h)
  resolved-AllSafe (some []) h = absurd (false-ne-true h)
  resolved-AllSafe (some (a ∷ more)) h =
      All-any (is_unsafe_ip_address is_ip) (a ∷ more) (not-true _ h)

  literal-AllSafe :
      (url : Url) (host href : Text) (zero : Bool)
      → (is_ip host == 0) ≡ zero
      → (if not zero
          then (if is_unsafe_ip_address is_ip host then none else some url.href)
          else if resolved_safe is_ip (resolve host)
          then some url.href
          else none)
        ≡ some href
      → (some url.href ≡ some href) × AllSafe (destinations host)
  literal-AllSafe url host href true e h =
      let (safe, same) = required (resolved_safe is_ip (resolve host)) (some url.href) h in
      (same, rw e (resolved-AllSafe (resolve host) safe))
  literal-AllSafe url host href false e h =
      let (safe, same) = refused (is_unsafe_ip_address is_ip host) (some url.href) h in
      (same, rw e (safe, tt))

  host_accepted :
      (url : Url) (href : Text)
      → validate_host is_ip parse_url resolve url (host_of url) ≡ some href
      → (some url.href ≡ some href)
        × (is_local_hostname (host_of url) ≡ false)
        × AllSafe (destinations (host_of url))
  unfolding validate_host
  host_accepted url href h =
      let (named, rest) = refused (is_empty (host_of url) || is_local_hostname (host_of url)) _ h in
      let (_, far) = neither (is_empty (host_of url)) (is_local_hostname (host_of url)) named in
      let (same, safe) =
        literal-AllSafe url (host_of url) href (is_ip (host_of url) == 0) refl rest in
      (same, far, safe)

  url-Accepted :
      (url : Url) (href : Text)
      → validate_url is_ip parse_url resolve (some url) ≡ some href
      → (some url.href ≡ some href) × Accepted url
  unfolding validate_url
  url-Accepted url href h =
      let (scheme, rest) =
        refused
          (not (text_eq url.protocol (codes "http:"))
            && not (text_eq url.protocol (codes "https:")))
          _ h in
      let (open', rest') =
        refused (not (is_empty url.username) || not (is_empty url.password)) _ rest in
      let (user, pass) =
        neither (not (is_empty url.username)) (not (is_empty url.password)) open' in
      let (same, far, safe) = host_accepted url href rest' in
      (
        same,
        record {
          web =
              elim (not_both (text_eq url.protocol (codes "http:"))
                (text_eq url.protocol (codes "https:")) scheme) [
                  | inl e ↦ inl ((text_eq_iff url.protocol (codes "http:")).0 e)
                  | inr e ↦ inr ((text_eq_iff url.protocol (codes "https:")).0 e)
                ];
          no_username = empty-eq url.username user;
          no_password = empty-eq url.password pass;
          not_local = far;
          safe = safe;
        },
      )

  parsed-Accepted :
      (o : Option Url) (href : Text)
      → validate_url is_ip parse_url resolve o ≡ some href
      → (url : Url) × (o ≡ some url) × (some url.href ≡ some href) × Accepted url
  unfolding validate_url
  parsed-Accepted none href h = cc
  parsed-Accepted (some url) href h =
      let (same, accepted) = url-Accepted url href h in (url, refl, same, accepted)

  -- When `validate` returns a text, the value was a text of 1 to 2,048 characters, the URL parser
  -- accepted it, and the returned text is the parser's `href`; the scheme is http or https, there is
  -- neither a user name nor a password, the host is not a local name, and the host is an address
  -- that is not unsafe or resolves to at least one address and to no unsafe one.
  pub validate_sound :
      (value : JsValue) (href : Text)
      → validate is_ip parse_url resolve value ≡ some href
      → (s : Text) × (url : Url) × (value ≡ text s)
        × (1 ≤ length s)
        × (length s ≤ 2048)
        × (parse_url s ≡ some url)
        × (some url.href ≡ some href)
        × Accepted url
  unfolding validate
  validate_sound (number n) href h = absurd (none-ne-some h)
  validate_sound undefined href h = absurd (none-ne-some h)
  validate_sound other_value href h = absurd (none-ne-some h)
  validate_sound (text s) href h =
      let (size, rest) = refused (length s == 0 || ltb 2048 (length s)) _ h in
      let (some_text, short) = neither (length s == 0) (ltb 2048 (length s)) size in
      let (url, parsed, same, accepted) = parsed-Accepted (parse_url s) href rest in
      (s, url, refl, ground arith, ground arith, parsed, same, accepted)

  text_injective : {x y : Text} → ◌≡◌ {A = JsValue} (text x) (text y) → x ≡ y
  text_injective e = cc

  some_injective : {x y : Url} → ◌≡◌ {A = Option Url} (some x) (some y) → x ≡ y
  some_injective e = cc

  one_safe :
      (x : Text) (targets : List Text)
      → AllSafe (some targets)
      → In x targets
      → is_unsafe_ip_address is_ip x ≡ false
  one_safe x [] safe i = absurd safe
  one_safe x (a ∷ more) safe i =
      All-In (λ b. is_unsafe_ip_address is_ip b ≡ false) x (a ∷ more) safe i

  -- When `validate` returns a text for a URL, no IPv4 address to which the URL's host leads, that
  -- is, which the host is or resolves to, stands in one of the private or reserved blocks.
  pub validate_no_reserved :
      (s href : Text) (url : Url) (targets : List Text) (a b c d : ℕ)
      → validate is_ip parse_url resolve (text s) ≡ some href
      → parse_url s ≡ some url
      → destinations (host_of url) ≡ some targets
      → In (dotted a b c d) targets
      → is_ip (dotted a b c d) ≡ 4
      → a < 256
      → b < 256
      → c < 256
      → d < 256
      → is_reserved (address a b c d) ≡ false
  unfolding is_unsafe_ip_address
  validate_no_reserved s href url targets a b c d h parsed led i ip ha hb hc hd =
      let (s', url', same, _, _, parsed', _, accepted) = validate_sound (text s) href h in
      let known : url' ≡ url =
        some_injective (sym parsed' ∙ ap parse_url (sym (text_injective same)) ∙ parsed) in
      let safe =
        subst AllSafe led (subst (λ u. AllSafe (destinations (host_of u))) known accepted.safe) in
      let one = one_safe (dotted a b c d) targets safe i in
      sym (is_unsafe_ipv4-dotted a b c d ha hb hc hd) ∙ (rw ip at one)
