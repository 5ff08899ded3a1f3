-- ===== src/Serialization/Tests.antt =====
-- An encoding that keeps each value apart, and the theorems of src/serialization.rs at it.
use zenoh_c.Common.{
  ℕ, ◌≡◌, refl, true, false, Option, none, some, List, [], ◌∷◌, ◌++◌, map, is_empty, arith,
  if◌then◌else◌, ◌==◌,
}
use zenoh_c.Common.Utf8.{is_utf8}
use zenoh_c.ResultCodes.{z_ok}
use zenoh_c.Collections.Memory.{Bytes, Memory, null}
use zenoh_c.Collections.Slice.{CSlice, slice}
use zenoh_c.Serialization.Interface.{
  Number, uint8, int64, boolean, Kind, number, vec_u8, string, var_int, Value, Entry, ZenohExt,
  IsLawful, IsStream,
}
use zenoh_c.Serialization.{
  ze_serialize_str, ze_serialize_string, ze_serializer_empty, ze_serializer_finish,
  ze_deserializer_from_bytes,
}
use zenoh_c.Collections.Strings.{Strlen, strlen_or_zero, z_view_string_from_str}
use zenoh_c.Serialization.Nulls.{serialize_str-eq}
use zenoh_c.Serialization.RoundTrip.{StringReturns, string-StringReturns}
use zenoh_c.Serialization.Streams.{ze_serializer_serialize_str, ze_serializer_serialize_string}
use zenoh_c.Serialization.Streams.Sequence.{
  Item, a_number, a_length, put_items, ReadsBack, put_items-ReadsBack,
}

abbrev Num : Number → Type 0
Num k = ℕ

-- A number, or bytes.
abbrev Word : Type 0
Word = ℕ × Bytes

abbrev encode : (k : Kind) → Value Num k → Word
encode (number k) v = (v, [])
encode vec_u8 bs = (0, bs)
encode string bs = (0, bs)
encode var_int n = (n, [])

abbrev decode : (k : Kind) → Word → Value Num k
decode (number k) w = w.0
decode vec_u8 w = w.1
decode string w = w.1
decode var_int w = w.0

abbrev take_word : (k : Kind) → List Word → Option (Value Num k) × List Word
take_word k [] = (none, [])
take_word k (w ∷ ws) = (some (decode k w), ws)

abbrev words : ZenohExt
words = record {
  Num = Num;
  ZBytes = List Word;
  Serializer = List Word;
  Deserializer = List Word;
  zbytes_new = [];
  z_serialize = λ k v. encode k v ∷ [];
  z_deserialize = λ k ws. (take_word k ws).0;
  serializer_new = [];
  serialize = λ k v ws. ws ++ encode k v ∷ [];
  finish = λ ws. ws;
  deserializer_new = λ ws. ws;
  deserialize = take_word;
  done = is_empty;
}

decode-encode : (k : Kind) (v : Value Num k) → decode k (encode k v) ≡ v
decode-encode (number k) v = refl
decode-encode vec_u8 bs = refl
decode-encode string bs = refl
decode-encode var_int n = refl

words-IsLawful : IsLawful words
words-IsLawful = record { z_deserialize-z_serialize = λ k v. rw (decode-encode k v) }

abbrev entry_word : Entry Num → Word
entry_word e = encode e.0 e.1

map-append :
    (xs ys : List (Entry Num)) → map entry_word (xs ++ ys) ≡ map entry_word xs ++ map entry_word ys
map-append [] ys = refl
map-append (x ∷ xs) ys = rw (map-append xs ys)

words-IsStream : IsStream words
words-IsStream = record {
  filled = map entry_word;
  left = map entry_word;
  serializer_new-filled = refl;
  serialize-filled = λ es k v. rw (map-append es ((k, v) ∷ []));
  finish-filled = λ es. refl;
  deserialize-left = λ es k v. rw (decode-encode k v);
  done-left = refl;
}

abbrev text_memory : Memory
text_memory = record {
  byte = λ p. if p == 10 then 104 else if p == 11 then 255 else 7;
  next = 100;
  boxes = [];
  calls = [];
}

abbrev one_byte : CSlice
one_byte = record { data_ptr = 10; len = 1; deleter = none; context = null }

abbrev two_bytes : CSlice
two_bytes = record { data_ptr = 10; len = 2; deleter = none; context = null }

two_bytes_hold : slice two_bytes text_memory ≡ some (104 ∷ 255 ∷ [], text_memory)
unfolding slice
two_bytes_hold = refl

one_byte_holds : slice one_byte text_memory ≡ some (104 ∷ [], text_memory)
unfolding slice
one_byte_holds = refl

string-StringReturns_example :
    StringReturns words one_byte text_memory (104 ∷ []) (is_utf8 (104 ∷ []))
string-StringReturns_example =
    string-StringReturns words one_byte text_memory (104 ∷ []) words-IsLawful (omega arith)
      one_byte_holds

utf8_run : is_utf8 (104 ∷ []) ≡ true
unfolding is_utf8
utf8_run = refl

utf8_refused : is_utf8 (104 ∷ 255 ∷ []) ≡ false
unfolding is_utf8
utf8_refused = refl

abbrev message : List (Item Num)
message = a_length 2 ∷ a_number uint8 7 ∷ a_number boolean 1 ∷ a_number int64 5 ∷ []

put_items-ReadsBack_example :
    (s : List Word) × (bytes : List Word) × (ze_serializer_empty words ≡ (some s, z_ok))
    × (ze_serializer_finish words (some (put_items words message s)) ≡ some (none, bytes))
    × ReadsBack words message (ze_deserializer_from_bytes words bytes)
put_items-ReadsBack_example = put_items-ReadsBack words words-IsStream message

abbrev measure_one : Strlen
measure_one f p = 1

abbrev measured_view : CSlice
measured_view = (z_view_string_from_str measure_one text_memory.byte 10).0

serialize_str-eq_example :
    (ze_serialize_string words measured_view text_memory
      ≡ some ((words.z_serialize string (104 ∷ []), z_ok), text_memory))
    × (ze_serializer_serialize_string words [] measured_view text_memory
        ≡ some ((words.serialize string (104 ∷ []) [], z_ok), text_memory))
    × (strlen_or_zero measure_one text_memory.byte null ≡ 0)
    × (ze_serialize_str words measure_one 10 text_memory
        ≡ ze_serialize_string words measured_view text_memory)
    × (ze_serializer_serialize_str words measure_one [] 10 text_memory
        ≡ ze_serializer_serialize_string words [] measured_view text_memory)
unfolding strlen_or_zero is_utf8
serialize_str-eq_example = serialize_str-eq words measure_one 10 text_memory []
