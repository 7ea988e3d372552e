-- ===== src/Common/Origin.antt =====
-- crates/common/src/crdt/origin.rs: the compact encoding of OriginTag. UTF-8 and the calendar are
-- parameters: a text is known by its bytes, a time by its milliseconds.
pub mod Codec
mod Tests
use scriptum.Prelude.{
  ℕ, ◌+◌, ◌≡◌, Bool, true, false, not, String, Option, none, some, List, [], ◌∷◌, ◌++◌, length,
  take, drop, get_or, ltb, ◌==◌, nat_eq, if◌then◌else◌,
}
use scriptum.Prelude.Results.{Result, ok, err, ◌>>=◌, ok_or}
use scriptum.Prelude.Bytes.{to_le_bytes, from_le_bytes, AllBytes}
use scriptum.Prelude.Numbers.{ℤ, to_u64, from_u64, IsI64}

abbrev pub max_author_id_len : ℕ
max_author_id_len = 255

abbrev pub origin_tag_fixed_bytes : ℕ
origin_tag_fixed_bytes = 10

pub data AuthorType : Type 0 where
  human : AuthorType
  agent : AuthorType

pub data OriginTagCodecError : Type 0 where
  author_id_too_long : (len max : ℕ) → OriginTagCodecError
  payload_too_short : (expected actual : ℕ) → OriginTagCodecError
  length_mismatch : (expected actual : ℕ) → OriginTagCodecError
  invalid_author_type : ℕ → OriginTagCodecError
  invalid_utf8_author_id : OriginTagCodecError
  invalid_timestamp_millis : ℤ → OriginTagCodecError

abbrev pub to_byte : AuthorType → ℕ
to_byte human = 0
to_byte agent = 1

unfoldable pub from_byte : ℕ → Result OriginTagCodecError AuthorType
from_byte value =
    if value == 0
    then ok human
    else if value == 1
    then ok agent
    else err (invalid_author_type value)

-- `String`: the bytes of a text, and the text of bytes that are UTF-8.
pub record Utf8 (Text : Type 0) : Type 0 where
  pub as_bytes : Text → List ℕ
  pub from_utf8 : List ℕ → Option Text
  pub from-as_bytes : (s : Text) → from_utf8 (as_bytes s) ≡ some s
  pub as-from_utf8 : (bs : List ℕ) (s : Text) → from_utf8 bs ≡ some s → as_bytes s ≡ bs

-- `DateTime<Utc>`: the time of some milliseconds since the epoch, and the milliseconds of a time,
-- which are what a time has been cut down to.
pub record Calendar (DateTime : Type 0) : Type 0 where
  pub timestamp_millis : DateTime → ℤ
  pub timestamp_millis_opt : ℤ → Option DateTime
  pub millis-IsI64 : (t : DateTime) → IsI64 (timestamp_millis t)
  pub truncated : DateTime → DateTime
  pub opt-millis : (t : DateTime) → timestamp_millis_opt (timestamp_millis t) ≡ some (truncated t)
  pub millis-opt : (z : ℤ) (t : DateTime) → timestamp_millis_opt z ≡ some t → timestamp_millis t ≡ z

pub record OriginTag (Text DateTime : Type 0) : Type 0 where
  pub author_id : Text
  pub author_type : AuthorType
  pub timestamp : DateTime

module _ {Text DateTime : Type 0} (utf8 : Utf8 Text) (calendar : Calendar DateTime) where
  unfoldable pub to_bytes : OriginTag Text DateTime → Result OriginTagCodecError (List ℕ)
  to_bytes tag =
      let author_bytes = utf8.as_bytes tag.author_id in
      if ltb max_author_id_len (length author_bytes)
      then err (author_id_too_long (length author_bytes) max_author_id_len)
      else ok (
          to_byte tag.author_type
          ∷ length author_bytes
          ∷ (author_bytes ++ to_le_bytes 8 (to_u64 (calendar.timestamp_millis tag.timestamp))))

  -- The fields of these bytes.
  unfoldable pub fields_of :
      AuthorType → List ℕ → List ℕ → Result OriginTagCodecError (OriginTag Text DateTime)
  fields_of author_type author_bytes stamp = do
    author_id ← ok_or (utf8.from_utf8 author_bytes) invalid_utf8_author_id
    let millis = from_u64 (from_le_bytes stamp)
    timestamp ← ok_or (calendar.timestamp_millis_opt millis) (invalid_timestamp_millis millis)
    ok (record { author_id = author_id; author_type = author_type; timestamp = timestamp })

  -- After the length has been checked.
  unfoldable pub read_fields :
      AuthorType → ℕ → List ℕ → Result OriginTagCodecError (OriginTag Text DateTime)
  unfolding fields_of
  read_fields author_type author_len bytes =
      fields_of author_type (take author_len (drop 2 bytes)) (take 8 (drop (2 + author_len) bytes))

  unfoldable pub from_bytes : List ℕ → Result OriginTagCodecError (OriginTag Text DateTime)
  unfolding from_byte read_fields
  from_bytes bytes =
      if ltb (length bytes) origin_tag_fixed_bytes
      then err (payload_too_short origin_tag_fixed_bytes (length bytes))
      else do
        author_type ← from_byte (get_or bytes 0 0)
        let author_len = get_or bytes 1 0
        let expected_len = origin_tag_fixed_bytes + author_len
        (if length bytes == expected_len
            then read_fields author_type author_len bytes
            else err (length_mismatch expected_len (length bytes)))
