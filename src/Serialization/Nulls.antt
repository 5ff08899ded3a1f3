-- ===== src/Serialization/Nulls.antt =====
-- The functions of src/serialization.rs that measure a string, and NULL.
use zenoh_c.Common.{◌≡◌, refl, Bool, true, false, ap, sym, ◌∙◌, none, some, ◌==◌, if◌then◌else◌}
use zenoh_c.ResultCodes.{z_ok, z_eutf8}
use zenoh_c.Common.Utf8.{is_utf8}
use zenoh_c.Collections.Memory.{
  Ptr, null, Bytes, Memory, read, M, pure, ◌>>=◌, bind-some, from_raw_parts,
}
use zenoh_c.Collections.Slice.{CSlice, slice, new_borrowed_unchecked}
use zenoh_c.Collections.Slice.Copies.{slice-read}
use zenoh_c.Collections.Strings.{Strlen, strlen_or_zero, z_view_string_from_str}
use zenoh_c.Collections.Strings.Nulls.{measured-valid}
use zenoh_c.Serialization.Interface.{string, ZenohExt}
use zenoh_c.Serialization.{checked, ze_serialize_str, ze_serialize_string}
use zenoh_c.Serialization.Streams.{
  serialize_checked, ze_serializer_serialize_str, ze_serializer_serialize_string,
}

module _ (z : ZenohExt) (strlen : Strlen) (p : Ptr) (m : Memory) where
  abbrev view : CSlice
  view = (z_view_string_from_str strlen m.byte p).0

  abbrev measured : Bytes
  measured = read m.byte p (strlen_or_zero strlen m.byte p)

  view-eq :
      z_view_string_from_str strlen m.byte p
      ≡ (new_borrowed_unchecked p (strlen_or_zero strlen m.byte p), z_ok)
  unfolding z_view_string_from_str
  view-eq = rw (measured-valid strlen m.byte p)

  view-read : slice view m ≡ some (measured, m)
  unfolding new_borrowed_unchecked
  view-read =
      ap (λ r. slice r.0 m) view-eq
      ∙ slice-read (new_borrowed_unchecked p (strlen_or_zero strlen m.byte p)) m
          (measured-valid strlen m.byte p)

  string-measured : ze_serialize_string z view m ≡ some (checked z measured, m)
  unfolding ze_serialize_string
  string-measured = bind-some (slice view) (λ bs. pure (checked z bs)) view-read

  serializer_string-measured :
      (s : z.Serializer)
      → ze_serializer_serialize_string z s view m ≡ some (serialize_checked z s measured, m)
  unfolding ze_serializer_serialize_string
  serializer_string-measured s =
      bind-some (slice view) (λ bs. pure (serialize_checked z s bs)) view-read

  tested :
      {B : Type 0} (b : Bool) (bytes : Bytes) (next : Bytes → M B)
      → ((λ m'. if b then none else some (bytes, m')) >>= next) m
        ≡ (if b then none else next bytes m)
  tested true bytes next = refl
  tested false bytes next = refl

  -- What is done with the bytes at the pointer.
  from_raw_parts-then :
      {B : Type 0} (next : Bytes → M B)
      → (from_raw_parts p (strlen_or_zero strlen m.byte p) >>= next) m
        ≡ (if p == null then none else next measured m)
  unfolding from_raw_parts
  from_raw_parts-then next = tested (p == null) measured next

  -- `z_view_string_from_str` and then `ze_serialize_string` or `ze_serializer_serialize_string`
  -- serialize, for every pointer, the bytes at it that are measured, none for NULL, with `Z_OK` where
  -- they are UTF-8; else they return `Z_EUTF8` and serialize nothing. `ze_serialize_str` and
  -- `ze_serializer_serialize_str` do the same for every pointer but NULL, for which they are
  -- undefined, whatever `strlen` does.
  pub serialize_str-eq :
      (s : z.Serializer)
      → (ze_serialize_string z view m
          ≡ some (
            if is_utf8 measured
                then (z.z_serialize string measured, z_ok)
                else (z.zbytes_new, z_eutf8),
            m,
          ))
        × (ze_serializer_serialize_string z s view m
            ≡ some (
              if is_utf8 measured then (z.serialize string measured s, z_ok) else (s, z_eutf8),
              m,
            ))
        × (strlen_or_zero strlen m.byte null ≡ 0)
        × (ze_serialize_str z strlen p m
            ≡ (if p == null then none else ze_serialize_string z view m))
        × (ze_serializer_serialize_str z strlen s p m
            ≡ (if p == null then none else ze_serializer_serialize_string z s view m))
  unfolding ze_serialize_str ze_serializer_serialize_str strlen_or_zero
  serialize_str-eq s = (
    string-measured,
    serializer_string-measured s,
    refl,
    from_raw_parts-then (λ bs. pure (checked z bs))
        ∙ ap (λ r. if p == null then none else r) (sym string-measured),
    from_raw_parts-then (λ bs. pure (serialize_checked z s bs))
        ∙ ap (λ r. if p == null then none else r) (sym (serializer_string-measured s)),
  )
