-- ===== src/Serialization/Streams/Sequence.antt =====
-- A message of several numbers and lengths: written with the functions `ze_serializer_serialize_*`
-- of src/serialization.rs, and read with `ze_deserializer_deserialize_*`.
use zenoh_c.Common.{
  ℕ, ◌≡◌, refl, sym, ap, ◌∙◌, subst, true, none, some, List, [], ◌∷◌, ◌++◌, map, append_assoc,
  append-nil,
}
use zenoh_c.ResultCodes.{ZResult, z_ok}
use zenoh_c.Serialization.Interface.{
  Number, uint8, uint16, uint32, uint64, int8, int16, int32, int64, float32, float64, boolean,
  number, var_int, Entry, ZenohExt, IsStream,
}
use zenoh_c.Serialization.{
  ze_serializer_empty, ze_serializer_finish, ze_deserializer_from_bytes, ze_deserializer_is_done,
}
use zenoh_c.Serialization.Streams.{
  ze_serializer_serialize_arithmetic, ze_deserializer_deserialize_arithmetic,
  ze_serializer_serialize_uint8, ze_serializer_serialize_uint16, ze_serializer_serialize_uint32,
  ze_serializer_serialize_uint64, ze_serializer_serialize_int8, ze_serializer_serialize_int16,
  ze_serializer_serialize_int32, ze_serializer_serialize_int64, ze_serializer_serialize_float,
  ze_serializer_serialize_double, ze_serializer_serialize_bool,
  ze_serializer_serialize_sequence_length, ze_deserializer_deserialize_uint8,
  ze_deserializer_deserialize_uint16, ze_deserializer_deserialize_uint32,
  ze_deserializer_deserialize_uint64, ze_deserializer_deserialize_int8,
  ze_deserializer_deserialize_int16, ze_deserializer_deserialize_int32,
  ze_deserializer_deserialize_int64, ze_deserializer_deserialize_float,
  ze_deserializer_deserialize_double, ze_deserializer_deserialize_bool,
  ze_deserializer_deserialize_sequence_length,
}

-- An element of a message.
pub data Item (num : Number → Type 0) : Type 0 where
  a_number : (k : Number) → num k → Item num
  a_length : ℕ → Item num

module _ (z : ZenohExt) where
  open z use {Num, ZBytes, Serializer, Deserializer}

  -- The call that writes a number of this type.
  pub put_number : (k : Number) → Serializer → Num k → Serializer × ZResult
  put_number uint8 s v = ze_serializer_serialize_uint8 z s v
  put_number uint16 s v = ze_serializer_serialize_uint16 z s v
  put_number uint32 s v = ze_serializer_serialize_uint32 z s v
  put_number uint64 s v = ze_serializer_serialize_uint64 z s v
  put_number int8 s v = ze_serializer_serialize_int8 z s v
  put_number int16 s v = ze_serializer_serialize_int16 z s v
  put_number int32 s v = ze_serializer_serialize_int32 z s v
  put_number int64 s v = ze_serializer_serialize_int64 z s v
  put_number float32 s v = ze_serializer_serialize_float z s v
  put_number float64 s v = ze_serializer_serialize_double z s v
  put_number boolean s v = ze_serializer_serialize_bool z s v

  -- The call that reads one.
  pub get_number : (k : Number) → Deserializer → Num k → Num k × ZResult × Deserializer
  get_number uint8 d old = ze_deserializer_deserialize_uint8 z d old
  get_number uint16 d old = ze_deserializer_deserialize_uint16 z d old
  get_number uint32 d old = ze_deserializer_deserialize_uint32 z d old
  get_number uint64 d old = ze_deserializer_deserialize_uint64 z d old
  get_number int8 d old = ze_deserializer_deserialize_int8 z d old
  get_number int16 d old = ze_deserializer_deserialize_int16 z d old
  get_number int32 d old = ze_deserializer_deserialize_int32 z d old
  get_number int64 d old = ze_deserializer_deserialize_int64 z d old
  get_number float32 d old = ze_deserializer_deserialize_float z d old
  get_number float64 d old = ze_deserializer_deserialize_double z d old
  get_number boolean d old = ze_deserializer_deserialize_bool z d old

  -- The calls that write a message, in order, and the serializer then.
  pub put_items : List (Item Num) → Serializer → Serializer
  put_items [] s = s
  put_items (a_number k v ∷ is) s = put_items is (put_number k s v).0
  put_items (a_length n ∷ is) s = put_items is (ze_serializer_serialize_sequence_length z s n).0

  -- Read in order, each call returns `Z_OK` and the element, whatever the out parameter held before,
  -- and then the deserializer is done.
  pub ReadsBack : List (Item Num) → Deserializer → Type 0
  ReadsBack [] d = ze_deserializer_is_done z d ≡ true
  ReadsBack (a_number k v ∷ is) d =
      (d' : Deserializer) × ((old : Num k) → get_number k d old ≡ (v, z_ok, d')) × ReadsBack is d'
  ReadsBack (a_length n ∷ is) d =
      (d' : Deserializer) × (ze_deserializer_deserialize_sequence_length z d ≡ (n, z_ok, d'))
      × ReadsBack is d'

  entry : Item Num → Entry Num
  entry (a_number k v) = (number k, v)
  entry (a_length n) = (var_int, n)

  put_number-eq :
      (k : Number) (s : Serializer) (v : Num k)
      → put_number k s v ≡ (z.serialize (number k) v s, z_ok)
  unfolding put_number ze_serializer_serialize_arithmetic ze_serializer_serialize_uint8
      ze_serializer_serialize_uint16 ze_serializer_serialize_uint32 ze_serializer_serialize_uint64
      ze_serializer_serialize_int8 ze_serializer_serialize_int16 ze_serializer_serialize_int32
      ze_serializer_serialize_int64 ze_serializer_serialize_float ze_serializer_serialize_double
      ze_serializer_serialize_bool
  put_number-eq uint8 s v = refl
  put_number-eq uint16 s v = refl
  put_number-eq uint32 s v = refl
  put_number-eq uint64 s v = refl
  put_number-eq int8 s v = refl
  put_number-eq int16 s v = refl
  put_number-eq int32 s v = refl
  put_number-eq int64 s v = refl
  put_number-eq float32 s v = refl
  put_number-eq float64 s v = refl
  put_number-eq boolean s v = refl

  get_number-eq :
      (k : Number) (d : Deserializer) (old : Num k)
      → get_number k d old ≡ ze_deserializer_deserialize_arithmetic z k d old
  unfolding get_number ze_deserializer_deserialize_uint8 ze_deserializer_deserialize_uint16
      ze_deserializer_deserialize_uint32 ze_deserializer_deserialize_uint64
      ze_deserializer_deserialize_int8 ze_deserializer_deserialize_int16
      ze_deserializer_deserialize_int32 ze_deserializer_deserialize_int64
      ze_deserializer_deserialize_float ze_deserializer_deserialize_double
      ze_deserializer_deserialize_bool
  get_number-eq uint8 d old = refl
  get_number-eq uint16 d old = refl
  get_number-eq uint32 d old = refl
  get_number-eq uint64 d old = refl
  get_number-eq int8 d old = refl
  get_number-eq int16 d old = refl
  get_number-eq int32 d old = refl
  get_number-eq int64 d old = refl
  get_number-eq float32 d old = refl
  get_number-eq float64 d old = refl
  get_number-eq boolean d old = refl

  module _ (law : IsStream z) where
    open law use {filled, left}

    put_items-filled :
        (is : List (Item Num)) (es : List (Entry Num))
        → put_items is (filled es) ≡ filled (es ++ map entry is)
    unfolding put_items entry ze_serializer_serialize_sequence_length
    put_items-filled [] es = rw (append-nil es)
    put_items-filled (a_number k v ∷ is) es =
        ap (λ (r : Serializer × ZResult). put_items is r.0) (put_number-eq k (filled es) v)
        ∙ ap (put_items is) (law.serialize-filled es (number k) v)
        ∙ put_items-filled is (es ++ (number k, v) ∷ [])
        ∙ ap filled (append_assoc es ((number k, v) ∷ []) (map entry is))
    put_items-filled (a_length n ∷ is) es =
        ap (put_items is) (law.serialize-filled es var_int n)
        ∙ put_items-filled is (es ++ (var_int, n) ∷ [])
        ∙ ap filled (append_assoc es ((var_int, n) ∷ []) (map entry is))

    get_number-left :
        (k : Number) (v old : Num k) (es : List (Entry Num))
        → get_number k (left ((number k, v) ∷ es)) old ≡ (v, z_ok, left es)
    unfolding ze_deserializer_deserialize_arithmetic
    get_number-left k v old es =
        get_number-eq k (left ((number k, v) ∷ es)) old ∙ rw (law.deserialize-left es (number k) v)

    get_length-left :
        (n : ℕ) (es : List (Entry Num))
        → ze_deserializer_deserialize_sequence_length z (left ((var_int, n) ∷ es))
          ≡ (n, z_ok, left es)
    unfolding ze_deserializer_deserialize_sequence_length
    get_length-left n es = rw (law.deserialize-left es var_int n)

    left-ReadsBack : (is : List (Item Num)) → ReadsBack is (left (map entry is))
    unfolding ReadsBack entry ze_deserializer_is_done
    left-ReadsBack [] = law.done-left
    left-ReadsBack (a_number k v ∷ is) =
        (left (map entry is), (λ old. get_number-left k v old (map entry is)), left-ReadsBack is)
    left-ReadsBack (a_length n ∷ is) =
        (left (map entry is), get_length-left n (map entry is), left-ReadsBack is)

    -- Where zenoh-ext deserializes in the order in which it serialized: a message of numbers and
    -- sequence lengths, written in any order of types to the serializer that `ze_serializer_empty`
    -- makes and taken out with `ze_serializer_finish`, is read back from the resulting bytes in the
    -- same order, each call returning `Z_OK` and the element whatever the out parameter held before,
    -- and then the deserializer is done; the serializer's variable is left with the gravestone.
    pub put_items-ReadsBack :
        (is : List (Item Num))
        → (s : Serializer) × (bytes : ZBytes) × (ze_serializer_empty z ≡ (some s, z_ok))
          × (ze_serializer_finish z (some (put_items is s)) ≡ some (none, bytes))
          × ReadsBack is (ze_deserializer_from_bytes z bytes)
    unfolding ze_serializer_empty ze_serializer_finish ze_deserializer_from_bytes
    put_items-ReadsBack is =
        let s = z.serializer_new in
        let full : put_items is s ≡ filled (map entry is) =
          ap (put_items is) law.serializer_new-filled ∙ put_items-filled is [] in
        let opened : z.deserializer_new (z.finish (put_items is s)) ≡ left (map entry is) =
          ap (λ r. z.deserializer_new (z.finish r)) full ∙ law.finish-filled (map entry is) in
        (
          s,
          z.finish (put_items is s),
          refl,
          refl,
          subst (ReadsBack is) (sym opened) (left-ReadsBack is),
        )
