-- ===== src/Serialization/Tests.antt =====
-- Messages at concrete inputs: numbers, with a `bincode` that writes one byte.
use zhtp.Base.{ℕ, ◌≡◌, refl, ◌↔◌, Option, none, some, List, [], ◌∷◌, ◌++◌, arith}
use zhtp.Base.Result.{ok, err}
use zhtp.Serialization.{
  Bincode, message, to_be_bytes, serialize_message, deserialize_message, serialize_request,
  deserialize_request, serialize_response, deserialize_response, invalid_magic,
}
use zhtp.Serialization.Bytes.{IsAccepted}
use zhtp.Serialization.RoundTrip.{ReadsBack, deserialize-serialize, deserialize_message-ok_iff}

abbrev read_byte : List ℕ → Option ℕ
read_byte (b ∷ []) = some b
read_byte _ = none

abbrev one_byte : Bincode ℕ
one_byte = record { serialize = λ n. some (n ∷ []); deserialize = read_byte }

one_byte-ReadsBack : ReadsBack one_byte
one_byte-ReadsBack m body e = ground arith

abbrev bytes_of_seven : List ℕ
bytes_of_seven = 90 ∷ 72 ∷ 84 ∷ 80 ∷ 1 ∷ 0 ∷ 0 ∷ 0 ∷ 1 ∷ 7 ∷ []

serialize_seven : serialize_message one_byte 7 ≡ ok bytes_of_seven
unfolding serialize_message message to_be_bytes
serialize_seven = refl

requests_seven : serialize_request one_byte one_byte 7 ≡ ok bytes_of_seven
unfolding serialize_request
requests_seven = serialize_seven

responses_seven : serialize_response one_byte one_byte 7 ≡ ok bytes_of_seven
unfolding serialize_response
responses_seven = serialize_seven

other_magic :
    deserialize_message one_byte (90 ∷ 72 ∷ 84 ∷ 84 ∷ 1 ∷ 0 ∷ 0 ∷ 0 ∷ 1 ∷ 7 ∷ [])
    ≡ err invalid_magic
unfolding deserialize_message
other_magic = refl

deserialize-serialize_example :
    (deserialize_request one_byte one_byte (bytes_of_seven ++ 3 ∷ 4 ∷ []) ≡ ok 7)
    × (deserialize_response one_byte one_byte (bytes_of_seven ++ 5 ∷ []) ≡ ok 7)
deserialize-serialize_example = (
  (deserialize-serialize one_byte one_byte one_byte-ReadsBack one_byte-ReadsBack).0 7 bytes_of_seven
      (3 ∷ 4 ∷ []) requests_seven,
  (deserialize-serialize one_byte one_byte one_byte-ReadsBack one_byte-ReadsBack).1 7 bytes_of_seven
      (5 ∷ []) responses_seven,
)

deserialize_message-ok_iff_example :
    (deserialize_message one_byte bytes_of_seven ≡ ok 7) ↔ IsAccepted one_byte bytes_of_seven 7
deserialize_message-ok_iff_example =
    deserialize_message-ok_iff one_byte bytes_of_seven 7 ground arith
