-- ===== src/Common/Origin/Codec.antt =====
-- The encoding of an origin tag read back, and the other way round.
use native.Mathlib.Decide.{ℕ_discrete}
use scriptum.Prelude.{
  ℕ, suc, ◌≢◌, ◌+◌, ◌≤◌, ◌<◌, ◌≡◌, refl, sym, ap, ◌∙◌, subst, true, false, inl, inr, List, [], ◌∷◌,
  ◌++◌, length, take, drop, get_or, ltb, ◌==◌, nat_eq, arith, Option-cases, length-append,
  length-take, take_all, length-drop, take-append, drop-append, take-drop, All-drop,
}
use scriptum.Prelude.Results.{Result, ok, ok_or, ◌>>=◌, first_ok}
use scriptum.Prelude.Bytes.{
  to_le_bytes, from_le_bytes, AllBytes, from-to_le_bytes, to-from_le_bytes, length-to_le_bytes,
  from_le_bytes-lt,
}
use scriptum.Prelude.Numbers.{ℤ, to_u64, from_u64, IsI64, from-to_u64, to_u64-lt, to-from_u64}
use scriptum.Common.Origin.{
  AuthorType, OriginTagCodecError, human, agent, OriginTag, Utf8, Calendar, to_byte, from_byte,
  to_bytes, from_bytes, read_fields, fields_of,
}

from-to_byte : (a : AuthorType) → from_byte (to_byte a) ≡ ok a
unfolding from_byte
from-to_byte human = refl
from-to_byte agent = refl

to-from_byte : (b : ℕ) (a : AuthorType) → from_byte b ≡ ok a → to_byte a ≡ b
unfolding from_byte
to-from_byte b human e = ground arith
to-from_byte b agent e = ground arith

-- The bytes behind the first two.
author_part : (x y : ℕ) (id stamp : List ℕ) → take (length id) (drop 2 (x ∷ y ∷ (id ++ stamp))) ≡ id
author_part x y id stamp = take-append id stamp

stamp_part :
    (x y : ℕ) (id stamp : List ℕ)
    → length stamp ≡ 8
    → take 8 (drop (2 + length id) (x ∷ y ∷ (id ++ stamp))) ≡ stamp
stamp_part x y id stamp eight =
    let two : 2 + length id ≡ suc (suc (length id)) = omega arith in
    rw two (rw (drop-append id stamp) (rw (← eight) (take_all stamp)))

module _ {Text DateTime : Type 0} (utf8 : Utf8 Text) (calendar : Calendar DateTime) where
  -- Behind the two bytes stand the fields.
  read_fields-append :
      (a : AuthorType) (x y : ℕ) (id stamp : List ℕ)
      → length stamp ≡ 8
      → read_fields utf8 calendar a (length id) (x ∷ y ∷ (id ++ stamp))
        ≡ fields_of utf8 calendar a id stamp
  unfolding read_fields
  read_fields-append a x y id stamp eight =
      ap
        (λ (s : List ℕ).
          fields_of utf8 calendar a (take (length id) (drop 2 (x ∷ y ∷ (id ++ stamp)))) s)
        (stamp_part x y id stamp eight)
      ∙ ap (λ (i : List ℕ). fields_of utf8 calendar a i stamp) (author_part x y id stamp)

  millis_back : (z : ℤ) → IsI64 z → from_u64 (from_le_bytes (to_le_bytes 8 (to_u64 z))) ≡ z
  millis_back z h = ap from_u64 (from-to_le_bytes 8 (to_u64 z) (to_u64-lt z h)) ∙ from-to_u64 z h

  fields_back :
      (tag : OriginTag Text DateTime)
      → fields_of utf8 calendar tag.author_type
          (utf8.as_bytes tag.author_id)
          (to_le_bytes 8 (to_u64 (calendar.timestamp_millis tag.timestamp)))
        ≡ ok (record tag { timestamp = calendar.truncated tag.timestamp })
  unfolding fields_of
  fields_back tag =
      let z = calendar.timestamp_millis tag.timestamp in
      rw (utf8.from-as_bytes tag.author_id) (
        rw (millis_back z (calendar.millis-IsI64 tag.timestamp))
          (rw (calendar.opt-millis tag.timestamp) refl))

  -- Bytes of the length that the second one gives.
  from_bytes-read :
      (x y : ℕ) (rest : List ℕ)
      → length rest ≡ 8 + y
      → from_bytes utf8 calendar (x ∷ y ∷ rest)
        ≡ (from_byte x >>= λ a. read_fields utf8 calendar a y (x ∷ y ∷ rest))
  unfolding from_bytes
  from_bytes-read x y rest e =
      let long : ltb (suc (suc (length rest))) 10 ≡ false = ground arith in
      let fits : (suc (suc (length rest)) == (10 + y)) ≡ true = ground arith in
      rw long (rw fits refl)

  -- Bytes of another length.
  from_bytes-other :
      (bytes : List ℕ) (tag : OriginTag Text DateTime)
      → length bytes ≢ 10 + get_or bytes 1 0
      → from_bytes utf8 calendar bytes ≢ ok tag
  unfolding from_bytes
  from_bytes-other bytes tag ne e = ground (arith, ne)

  -- A tag whose author's name has at most 255 bytes is encoded, and decoding the bytes gives the tag
  -- with its time cut down to milliseconds.
  pub from-to_bytes :
      (tag : OriginTag Text DateTime)
      → length (utf8.as_bytes tag.author_id) ≤ 255
      → (to_bytes utf8 calendar tag >>= from_bytes utf8 calendar)
        ≡ ok (record tag { timestamp = calendar.truncated tag.timestamp })
  unfolding to_bytes
  from-to_bytes tag le =
      let id = utf8.as_bytes tag.author_id in
      let n = to_u64 (calendar.timestamp_millis tag.timestamp) in
      let stamp = to_le_bytes 8 n in
      let eight = length-to_le_bytes 8 n in
      let a = tag.author_type in
      let short : ltb 255 (length id) ≡ false = ground arith in
      rw short (
        from_bytes-read (to_byte a) (length id) (id ++ stamp)
          (omega (arith, length-append id stamp))
        ∙ (ap
              (λ (r : Result OriginTagCodecError AuthorType). r >>= λ b.
                read_fields utf8 calendar b (length id) (to_byte a ∷ length id ∷ (id ++ stamp)))
              (from-to_byte a)
            ∙ (read_fields-append a (to_byte a) (length id) id stamp eight ∙ fields_back tag)))

  fields_inverse :
      (a : AuthorType) (id stamp : List ℕ) (tag : OriginTag Text DateTime)
      → length stamp ≡ 8
      → AllBytes stamp
      → fields_of utf8 calendar a id stamp ≡ ok tag
      → (utf8.as_bytes tag.author_id ≡ id)
        × (tag.author_type ≡ a)
        × (to_le_bytes 8 (to_u64 (calendar.timestamp_millis tag.timestamp)) ≡ stamp)
  unfolding fields_of
  fields_inverse a id stamp tag eight bytes e = elim (Option-cases (utf8.from_utf8 id)) [
    | inl n ↦ let z = rw (n, ok_or) at e in cc
    | inr (name, f) ↦
        let millis = from_u64 (from_le_bytes stamp) in
        elim (Option-cases (calendar.timestamp_millis_opt millis)) [
          | inl n ↦ let z = rw (n, ok_or) at (rw (f, ok_or) at e) in cc
          | inr (t, g) ↦
              let z = rw (g, ok_or) at (rw (f, ok_or) at e) in
              let name_eq : name ≡ tag.author_id = cc in
              let time_eq : t ≡ tag.timestamp = cc in
              let kind_eq : tag.author_type ≡ a = cc in
              let n = from_le_bytes stamp in
              let small = from_le_bytes-lt stamp bytes in
              let size : n < 18446744073709551616 = rw eight at small in
              let bits : to_u64 millis ≡ n = to-from_u64 n size in
              let back = to-from_le_bytes stamp bytes in
              (
                rw (← name_eq) (utf8.as-from_utf8 id name f),
                kind_eq,
                rw (← time_eq) (rw (calendar.millis-opt millis t g) (rw bits (rw eight at back))),
              )
        ]
  ]

  decoded :
      (x : ℕ) (id stamp : List ℕ) (tag : OriginTag Text DateTime)
      → length id < 256
      → AllBytes stamp
      → length stamp ≡ 8
      → from_bytes utf8 calendar (x ∷ length id ∷ (id ++ stamp)) ≡ ok tag
      → to_bytes utf8 calendar tag ≡ ok (x ∷ length id ∷ (id ++ stamp))
  unfolding to_bytes
  decoded x id stamp tag small bytes eight e =
      let y = length id in
      let read = from_bytes-read x y (id ++ stamp) (omega (arith, length-append id stamp)) in
      let (a, first, fields) =
        first_ok (from_byte x) (λ b. read_fields utf8 calendar b y (x ∷ y ∷ (id ++ stamp)))
          (sym read ∙ e) in
      let (name, kind, time) =
        fields_inverse a id stamp tag eight bytes
          (sym (read_fields-append a x y id stamp eight) ∙ fields) in
      let short : ltb 255 (length id) ≡ false = ground arith in
      rw name (rw short (rw time (rw kind (rw (to-from_byte x a first) refl))))

  -- Bytes that decode to a tag are what the tag is encoded to, so that no two sequences of bytes
  -- decode to the same tag.
  pub to-from_bytes :
      (bytes : List ℕ) (tag : OriginTag Text DateTime)
      → AllBytes bytes
      → from_bytes utf8 calendar bytes ≡ ok tag
      → to_bytes utf8 calendar tag ≡ ok bytes
  to-from_bytes [] tag all e = absurd (from_bytes-other [] tag (omega arith) e)
  to-from_bytes (x ∷ []) tag all e = absurd (from_bytes-other (x ∷ []) tag (omega arith) e)
  to-from_bytes (x ∷ y ∷ rest) tag all e = elim (ℕ_discrete (length rest) (8 + y)) [
    | no ne ↦ absurd (from_bytes-other (x ∷ y ∷ rest) tag (λ f. ne (omega (arith, f))) e)
    | yes fits ↦
        let id = take y rest in
        let stamp = drop y rest in
        let len : length id ≡ y = omega (arith, length-take y rest) in
        let whole = take-drop y rest in
        let same : x ∷ y ∷ rest ≡ x ∷ length id ∷ (id ++ stamp) =
          rw len (ap (λ (r : List ℕ). x ∷ y ∷ r) (sym whole)) in
        let bytes = All-drop (λ b. b < 256) y rest all.1.1 in
        subst (λ l. to_bytes utf8 calendar tag ≡ ok l) (sym same)
          (decoded x id stamp tag (omega (arith, all.1.0)) bytes (omega (arith, length-drop y rest))
            (subst (λ l. from_bytes utf8 calendar l ≡ ok tag) same e))
  ]
