-- ===== src/CachedStore/Reading.antt =====
-- A hash that was written for a link is read as that link, if it is read as one.
use wrap_link.CachedStore.{
  Hash, truthy, read_expiry, is_count, read_identity, read_hash, iso_or_empty, hash_of,
}
use wrap_link.Prelude.{ℕ, ◌≡◌, ◌≢◌, refl, sym, ap, ◌∙◌, [], ◌∷◌, Option, none, some, Text, JsNumber}
use wrap_link.Links.{Link}
use wrap_link.Links.Contract.{SameLink}
use wrap_link.PendingLinks.{and_then, check}

and_then-some {ℓ κ} :
    {A : Type ℓ} {B : Type κ} (o : Option A) (f : A → Option B) {b : B}
    → and_then o f ≡ some b
    → (a : A) × (o ≡ some a) × (f a ≡ some b)
and_then-some none f h = cc
and_then-some (some a) f h = (a, refl, h)

truthy-some : (o : Option Text) {v : Text} → truthy o ≡ some v → o ≡ some v
unfolding truthy
truthy-some none h = cc
truthy-some (some []) h = cc
truthy-some (some (c ∷ v)) h = h

pub SameLink-sym : {a b : Link} → SameLink a b → SameLink b a
SameLink-sym s = record {
  same_code = sym s.same_code;
  same_target = sym s.same_target;
  same_creation = sym s.same_creation;
  same_expiry = sym s.same_expiry;
}

pub SameLink-trans : {a b c : Link} → SameLink a b → SameLink b c → SameLink a c
SameLink-trans s t = record {
  same_code = s.same_code ∙ t.same_code;
  same_target = s.same_target ∙ t.same_target;
  same_creation = s.same_creation ∙ t.same_creation;
  same_expiry = s.same_expiry ∙ t.same_expiry;
}

pub SameLink-eq : {a b : Link} → a ≡ b → SameLink a b
SameLink-eq e = record {
  same_code = ap (λ l. l.code) e;
  same_target = ap (λ l. l.target_url) e;
  same_creation = ap (λ l. l.created_at) e;
  same_expiry = ap (λ l. l.expires_at) e;
}

abbrev pub or_link : Link → Option Link → Link
or_link other none = other
or_link other (some l) = l

abbrev or_text : Option Text → Text
or_text none = []
or_text (some t) = t

abbrev or_zero : Option ℕ → ℕ
or_zero none = 0
or_zero (some n) = n

abbrev or_never : Option (Option ℕ) → Option ℕ
or_never none = none
or_never (some e) = e

module _ (parse_date : Text → Option ℕ) (parse_number : Text → JsNumber) where
  pub read_hash-identity :
      (h : Hash) (found : Link)
      → read_hash parse_date parse_number h ≡ some found
      → (id : Link) × (read_identity parse_date parse_number h ≡ some id) × SameLink found id
  unfolding read_hash
  read_hash-identity h found e =
      let (id, read, e1) = and_then-some (read_identity parse_date parse_number h) _ e in
      let (clicks, given, e2) = and_then-some h.clicks _ e1 in
      let (u, valid, e3) =
        and_then-some (check (is_count parse_date parse_number (parse_number clicks))) _ e2 in
      (
        id,
        read,
        record {
          same_code = ap (λ o. (or_link found o).code) (sym e3);
          same_target = ap (λ o. (or_link found o).target_url) (sym e3);
          same_creation = ap (λ o. (or_link found o).created_at) (sym e3);
          same_expiry = ap (λ o. (or_link found o).expires_at) (sym e3);
        },
      )

  -- The count of clicks does not matter.
  pub read_identity-clicks :
      (h : Hash) (clicks : Option Text)
      → read_identity parse_date parse_number (record h { clicks = clicks })
        ≡ read_identity parse_date parse_number h
  unfolding read_identity
  read_identity-clicks h clicks = refl

  module _ (to_iso : ℕ → Text) (to_decimal : ℕ → Text)
      (parse_date-iso : (t : ℕ) → parse_date (to_iso t) ≡ some t)
      (iso_given : (t : ℕ) → to_iso t ≢ []) where
    truthy_given : (v : Text) → v ≢ [] → truthy (some v) ≡ some v
    unfolding truthy
    truthy_given [] n = absurd (n refl)
    truthy_given (c ∷ v) n = refl

    read_expiry-iso :
        (e : Option ℕ)
        → read_expiry parse_date parse_number (truthy (some (iso_or_empty to_iso to_decimal e)))
          ≡ some e
    unfolding read_expiry iso_or_empty truthy
    read_expiry-iso none = refl
    read_expiry-iso (some t) =
        ap (read_expiry parse_date parse_number) (truthy_given (to_iso t) (iso_given t))
        ∙ ap (λ o. and_then o (λ at. some (some at))) (parse_date-iso t)

    pub read_identity-hash_of :
        (link id : Link)
        → read_identity parse_date parse_number (hash_of to_iso to_decimal link) ≡ some id
        → SameLink id link
    unfolding read_identity hash_of
    read_identity-hash_of link id e =
        let (code, c, e1) = and_then-some (truthy (some link.code)) _ e in
        let (target, t, e2) = and_then-some (truthy (some link.target_url)) _ e1 in
        let (created, m, e3) = and_then-some (truthy (some (to_iso link.created_at))) _ e2 in
        let (made, d, e4) = and_then-some (parse_date created) _ e3 in
        let (expiry, x, e5) = and_then-some (read_expiry parse_date parse_number _) _ e4 in
        record {
          same_code =
              ap (λ o. (or_link id o).code) (sym e5)
              ∙ sym (ap or_text (truthy-some (some link.code) c));
          same_target =
              ap (λ o. (or_link id o).target_url) (sym e5)
              ∙ sym (ap or_text (truthy-some (some link.target_url) t));
          same_creation =
              ap (λ o. (or_link id o).created_at) (sym e5)
              ∙ sym (
                  ap or_zero (
                    sym (parse_date-iso link.created_at)
                    ∙ ap (λ o. parse_date (or_text o))
                        (truthy-some (some (to_iso link.created_at)) m)
                    ∙ d));
          same_expiry =
              ap (λ o. (or_link id o).expires_at) (sym e5)
              ∙ sym (ap or_never (sym (read_expiry-iso link.expires_at) ∙ x));
        }
