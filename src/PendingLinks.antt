-- ===== src/PendingLinks.antt =====
-- src/store/write-behind-link-store.ts: the text of a link that waits in a queue. JSON and the ISO
-- dates are parameters: `json_parse` is none when `JSON.parse` throws, and `parse_date` when
-- `new Date` is invalid.
pub mod RoundTrip
mod Tests
use wrap_link.Prelude.{
  ℕ, Bool, true, false, not, ◌&&◌, ◌||◌, List, [], ◌∷◌, Option, none, some, Text, codes, text_eq,
  length, all, leb, ltb, ◌==◌, if◌then◌else◌,
}
use wrap_link.Prelude.Maps.{Map, get}
use wrap_link.Links.{PendingLink}

-- A field of an object: a text, null, or another value; a field that is missing is not in the map.
pub data Field : Type 0 where
  field_text : Text → Field
  field_null field_other : Field

pub data Json : Type 0 where
  json_object : Map Field → Json
  json_null json_other : Json

unfoldable pub is_code_char : ℕ → Bool
is_code_char c =
    (leb b'A' c && leb c b'Z')
    || (leb b'a' c && leb c b'z')
    || (leb b'0' c && leb c b'9')
    || c == b'_'
    || c == b'-'

-- `/^[A-Za-z0-9_-]{4,32}$/`
unfoldable pub is_link_code : Text → Bool
unfolding is_code_char
is_link_code code = leb 4 (length code) && leb (length code) 32 && all is_code_char code

unfoldable pub is_target_url : Text → Bool
is_target_url url = not (length url == 0) && not (ltb 2048 (length url))

-- A field that must be a text.
abbrev pub text_of : Option Field → Option Text
text_of none = none
text_of (some (field_text s)) = some s
text_of (some field_null) = none
text_of (some field_other) = none

abbrev pub and_then {ℓ κ} : {A : Type ℓ} {B : Type κ} → Option A → (A → Option B) → Option B
and_then none f = none
and_then (some a) f = f a

abbrev pub check : Bool → Option (Unit {0})
check true = some tt
check false = none

module _ (to_iso : ℕ → Text) where
  iso_field : Option ℕ → Field
  iso_field none = field_null
  iso_field (some t) = field_text (to_iso t)

  -- The object that `serializePendingLink` gives to `JSON.stringify`.
  unfoldable pub pending_fields : PendingLink → Map Field
  unfolding iso_field
  pending_fields link =
      (codes "code", field_text link.code)
      ∷ (codes "targetUrl", field_text link.target_url)
      ∷ (codes "createdAt", field_text (to_iso link.created_at))
      ∷ (codes "expiresAt", iso_field link.expires_at)
      ∷ []

  unfoldable pub serialize_pending_link : (Map Field → Text) → PendingLink → Text
  unfolding pending_fields
  serialize_pending_link json_stringify link = json_stringify (pending_fields link)

module _ (parse_date : Text → Option ℕ) where
  -- `expiresAt`: null, or the text of a date.
  expiry_of : Option Field → Option (Option ℕ)
  expiry_of none = none
  expiry_of (some field_null) = some none
  expiry_of (some (field_text s)) = and_then (parse_date s) (λ t. some (some t))
  expiry_of (some field_other) = none

  -- The tests of `parsePendingLink` on the fields of an object.
  unfoldable pub read_pending_link : Map Field → Option PendingLink
  unfolding expiry_of is_link_code is_target_url
  read_pending_link fields = and_then (text_of (get (codes "code") fields)) λ code.
      and_then (check (is_link_code code)) λ _.
        and_then (text_of (get (codes "targetUrl") fields)) λ url.
          and_then (check (is_target_url url)) λ _.
            and_then (text_of (get (codes "createdAt") fields)) λ created.
              and_then (parse_date created) λ created_at.
                and_then (expiry_of (get (codes "expiresAt") fields)) λ expires_at. some (record {
                  code = code;
                  target_url = url;
                  created_at = created_at;
                  expires_at = expires_at;
                })

  read_json : Option Json → Option PendingLink
  unfolding read_pending_link
  read_json none = none
  read_json (some json_null) = none
  read_json (some json_other) = none
  read_json (some (json_object fields)) = read_pending_link fields

  unfoldable pub parse_pending_link : (Text → Option Json) → Text → Option PendingLink
  unfolding read_json
  parse_pending_link json_parse value = read_json (json_parse value)
