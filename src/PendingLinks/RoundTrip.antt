-- ===== src/PendingLinks/RoundTrip.antt =====
-- A link that waits in a queue is read as it was written.
use wrap_link.Prelude.{ℕ, ◌≤◌, ◌≡◌, refl, ap, ◌∙◌, true, Option, none, some, Text, text_eq}
use wrap_link.Prelude.Maps.{Map, get}
use wrap_link.Links.{PendingLink}
use wrap_link.PendingLinks.{
  Field, Json, json_object, is_link_code, is_target_url, iso_field, pending_fields,
  serialize_pending_link, expiry_of, read_pending_link, read_json, parse_pending_link,
}

-- The last moment that a date can hold.
abbrev pub last_date : ℕ
last_date = 8640000000000000

abbrev pub Datable : Option ℕ → Type 0
Datable none = Unit
Datable (some t) = t ≤ last_date

module _ (json_parse : Text → Option Json) (json_stringify : Map Field → Text) (to_iso : ℕ → Text)
    (parse_date : Text → Option ℕ)
    (json_law : (fields : Map Field)
      → json_parse (json_stringify fields) ≡ some (json_object fields))
    (date_law : (t : ℕ) → t ≤ last_date → parse_date (to_iso t) ≡ some t) where
  iso_read : (e : Option ℕ) → Datable e → expiry_of parse_date (some (iso_field to_iso e)) ≡ some e
  unfolding expiry_of iso_field
  iso_read none h = refl
  iso_read (some t) h = rw (date_law t h) refl

  fields_read :
      (link : PendingLink)
      → is_link_code link.code ≡ true
      → is_target_url link.target_url ≡ true
      → link.created_at ≤ last_date
      → Datable link.expires_at
      → read_pending_link parse_date (pending_fields to_iso link) ≡ some link
  unfolding read_pending_link pending_fields text_eq get
  fields_read link c u t e = rw (c, u, date_law link.created_at t, iso_read link.expires_at e) refl

  -- With a JSON that reads what it writes and dates that do so up to the last one, a link is read
  -- back as it was, if its code has 4 to 32 letters, digits, `_` or `-`, its URL has 1 to 2,048
  -- characters, and its dates are not after the last one.
  pub parse_pending_link-serialize :
      (link : PendingLink)
      → is_link_code link.code ≡ true
      → is_target_url link.target_url ≡ true
      → link.created_at ≤ last_date
      → Datable link.expires_at
      → parse_pending_link parse_date json_parse (serialize_pending_link to_iso json_stringify link)
        ≡ some link
  unfolding parse_pending_link serialize_pending_link read_json
  parse_pending_link-serialize link c u t e =
      ap (read_json parse_date) (json_law (pending_fields to_iso link)) ∙ fields_read link c u t e
