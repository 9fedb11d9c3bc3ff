-- ===== src/Serialization.antt =====
-- src/server/zhtp/serialization.rs. A byte is a number below 256. What `bincode` does with the
-- requests and responses of lib_protocols is the parameter `Bincode`.
pub mod Bytes
pub mod RoundTrip
mod Tests
use zhtp.Base.{
  ℕ, ◌+◌, ◌*◌, ◌/◌, ◌%◌, ◌^◌, Bool, not, ◌&&◌, Option, none, some, List, [], ◌∷◌, ◌++◌,
  if◌then◌else◌, ltb, ◌==◌,
}
use zhtp.Base.Lists.{length, take}
use zhtp.Base.Result.{Result, ok, err}

-- `bincode::serialize` and `bincode::deserialize` at a type of messages
pub record Bincode (Message : Type 0) : Type 0 where
  pub serialize : Message → Option (List ℕ)
  pub deserialize : List ℕ → Option Message

-- `b"ZHTP"`
abbrev pub zhtp_magic : List ℕ
zhtp_magic = 90 ∷ 72 ∷ 84 ∷ 80 ∷ []

abbrev pub zhtp_version : ℕ
zhtp_version = 1

abbrev pub max_message_size : ℕ
max_message_size = 10 * 1024 * 1024

pub data SerializeError : Type 0 where
  body_not_serialized too_large_to_send : SerializeError

pub data DeserializeError : Type 0 where
  too_short invalid_magic unsupported_version too_large incomplete body_not_deserialized :
      DeserializeError

-- `(length as u32).to_be_bytes()`
unfoldable pub to_be_bytes : ℕ → List ℕ
to_be_bytes n =
    let w = n % 2 ^ 32 in (w / 2 ^ 24) ∷ (w / 2 ^ 16 % 256) ∷ (w / 2 ^ 8 % 256) ∷ (w % 256) ∷ []

-- `u32::from_be_bytes`
abbrev pub from_be_bytes : ℕ → ℕ → ℕ → ℕ → ℕ
from_be_bytes a b c d = a * 2 ^ 24 + b * 2 ^ 16 + c * 2 ^ 8 + d

-- The header and the body of a message.
unfoldable pub message : List ℕ → List ℕ
message body = zhtp_magic ++ zhtp_version ∷ to_be_bytes (length body) ++ body

abbrev is_magic : ℕ → ℕ → ℕ → ℕ → Bool
is_magic z h t p = (z == 90) && (h == 72) && (t == 84) && (p == 80)

module _ {Message : Type 0} (bincode : Bincode Message) where
  open bincode use {serialize, deserialize}

  unfoldable pub serialize_message : Message → Result SerializeError (List ℕ)
  serialize_message m = elim (serialize m) [
    | none ↦ err body_not_serialized
    | some body ↦
        if ltb max_message_size (length body) then err too_large_to_send else ok (message body)
  ]

  unfoldable pub deserialize_body : List ℕ → Result DeserializeError Message
  deserialize_body body = elim (deserialize body) [
    | none ↦ err body_not_deserialized
    | some m ↦ ok m
  ]

  -- The nine bytes of the header are `data[0]` to `data[8]`.
  unfoldable pub deserialize_message : List ℕ → Result DeserializeError Message
  deserialize_message (z ∷ h ∷ t ∷ p ∷ version ∷ a ∷ b ∷ c ∷ d ∷ rest) =
      let n = from_be_bytes a b c d in
      if not (is_magic z h t p)
      then err invalid_magic
      else if not (version == zhtp_version)
      then err unsupported_version
      else if ltb max_message_size n
      then err too_large
      else if ltb (length rest) n
      then err incomplete
      else deserialize_body (take n rest)
  deserialize_message _ = err too_short

-- The two pairs of functions in the source differ in the type of the message alone.
module _ {ZhtpRequest ZhtpResponse : Type 0} (requests : Bincode ZhtpRequest)
    (responses : Bincode ZhtpResponse) where
  unfoldable pub serialize_request : ZhtpRequest → Result SerializeError (List ℕ)
  serialize_request = serialize_message requests

  unfoldable pub deserialize_request : List ℕ → Result DeserializeError ZhtpRequest
  deserialize_request = deserialize_message requests

  unfoldable pub serialize_response : ZhtpResponse → Result SerializeError (List ℕ)
  serialize_response = serialize_message responses

  unfoldable pub deserialize_response : List ℕ → Result DeserializeError ZhtpResponse
  deserialize_response = deserialize_message responses
