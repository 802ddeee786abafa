-- ===== src/PendingLinks/Tests.antt =====
-- A JSON and a date format that meet the laws, and the round trip with them.
use wrap_link.Prelude.{
  ℕ, zero, suc, ◌≤◌, ◌≡◌, refl, ap, [], ◌∷◌, Option, none, some, Text, codes, length, arith,
}
use wrap_link.Prelude.Maps.{Map}
use wrap_link.Links.{PendingLink}
use wrap_link.PendingLinks.{
  Field, field_text, field_null, field_other, Json, json_object, is_link_code, is_target_url,
  serialize_pending_link, parse_pending_link,
}
use wrap_link.PendingLinks.RoundTrip.{last_date, parse_pending_link-serialize}

-- A text is written with its characters one higher and ends with 0.
write_text : Text → Text → Text
write_text [] rest = 0 ∷ rest
write_text (c ∷ s) rest = suc c ∷ write_text s rest

read_text : Text → Text × Text
read_text [] = ([], [])
read_text (zero ∷ s) = ([], s)
read_text (suc c ∷ s) = let (t, rest) = read_text s in (c ∷ t, rest)

read-write_text : (s rest : Text) → read_text (write_text s rest) ≡ (s, rest)
unfolding read_text write_text
read-write_text [] rest = refl
read-write_text (c ∷ s) rest = rw (read-write_text s rest) refl

write_field : Field → Text → Text
unfolding write_text
write_field (field_text s) rest = 0 ∷ write_text s rest
write_field field_null rest = 1 ∷ rest
write_field field_other rest = 2 ∷ rest

as_field : Text × Text → Field × Text
as_field (s, rest) = (field_text s, rest)

read_field : Text → Field × Text
unfolding read_text as_field
read_field [] = (field_other, [])
read_field (zero ∷ s) = as_field (read_text s)
read_field (suc zero ∷ s) = (field_null, s)
read_field (suc (suc n) ∷ s) = (field_other, s)

read-write_field : (f : Field) (rest : Text) → read_field (write_field f rest) ≡ (f, rest)
unfolding read_field write_field as_field
read-write_field (field_text s) rest = ap as_field (read-write_text s rest)
read-write_field field_null rest = refl
read-write_field field_other rest = refl

write_fields : Map Field → Text
unfolding write_text write_field
write_fields [] = []
write_fields ((key, f) ∷ m) = write_text key (write_field f (write_fields m))

read_fields : ℕ → Text → Map Field
unfolding read_text read_field
read_fields zero s = []
read_fields (suc n) s =
    let (key, rest) = read_text s in
    let (f, rest') = read_field rest in (key, f) ∷ read_fields n rest'

read-write_fields : (m : Map Field) → read_fields (length m) (write_fields m) ≡ m
unfolding read_fields write_fields
read-write_fields [] = refl
read-write_fields ((key, f) ∷ m) =
    rw
      (
        read-write_text key (write_field f (write_fields m)),
        read-write_field f (write_fields m),
        read-write_fields m,
      )
      refl

stringify : Map Field → Text
unfolding write_fields
stringify m = length m ∷ write_fields m

parse : Text → Option Json
unfolding read_fields
parse [] = none
parse (n ∷ s) = some (json_object (read_fields n s))

parse-stringify : (m : Map Field) → parse (stringify m) ≡ some (json_object m)
unfolding parse stringify
parse-stringify m = ap (λ fields. some (json_object fields)) (read-write_fields m)

write_date : ℕ → Text
write_date t = t ∷ []

read_date : Text → Option ℕ
read_date [] = none
read_date (t ∷ s) = some t

read-write_date : (t : ℕ) → t ≤ last_date → read_date (write_date t) ≡ some t
unfolding read_date write_date
read-write_date t h = refl

abbrev link : PendingLink
link = record {
  code = codes "aB3_-x";
  target_url = codes "https://example.com/";
  created_at = 1700000000000;
  expires_at = some 1700000060000;
}

parse_pending_link-serialize_example :
    parse_pending_link read_date parse (serialize_pending_link write_date stringify link)
    ≡ some link
unfolding is_link_code is_target_url
parse_pending_link-serialize_example =
    parse_pending_link-serialize parse stringify write_date read_date parse-stringify
      read-write_date link refl refl (omega arith) (omega arith)
