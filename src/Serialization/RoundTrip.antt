-- ===== src/Serialization/RoundTrip.antt =====
-- What is serialized is read back, and what is read was serialized.
use zhtp.Base.{
  ℕ, ◌≤◌, ◌≡◌, refl, sym, ◌∙◌, ◌⊎◌, ◌↔◌, inl, inr, some, List, [], ◌∷◌, ◌++◌, arith, Option-cases,
}
use zhtp.Base.Lists.{length, All}
use zhtp.Base.Result.{ok, err}
use zhtp.Serialization.{
  Bincode, DeserializeError, message, max_message_size, too_short, incomplete, invalid_magic,
  to_be_bytes, serialize_message, deserialize_message, deserialize_body, serialize_request,
  deserialize_request, serialize_response, deserialize_response,
}
use zhtp.Serialization.Bytes.{
  IsByte, header, IsAccepted, deserialize_message-IsAccepted, deserialize_message-message,
  deserialize_message_headless, deserialize_message_short, deserialize_message-cut,
}

-- `bincode` reads back what it wrote.
abbrev pub ReadsBack : {Message : Type 0} → Bincode Message → Type 0
ReadsBack {Message} bincode =
    (m : Message) (body : List ℕ)
    → bincode.serialize m ≡ some body
    → bincode.deserialize body ≡ some m

module _ {Message : Type 0} (bincode : Bincode Message) where
  open bincode use {serialize, deserialize}

  pub serialize_message-ok :
      (m : Message) (bytes : List ℕ)
      → serialize_message bincode m ≡ ok bytes
      → (body : List ℕ) × (serialize m ≡ some body)
        × (length body ≤ max_message_size)
        × (bytes ≡ message body)
  unfolding serialize_message
  serialize_message-ok m bytes e = elim (Option-cases (serialize m)) [
    | inl n ↦ absurd (ground arith)
    | inr (body, s) ↦ (body, s, ground arith, ground arith)
  ]

  IsAccepted-ok :
      (bytes : List ℕ) (m : Message)
      → IsAccepted bincode bytes m
      → deserialize_message bincode bytes ≡ ok m
  unfolding deserialize_body
  IsAccepted-ok bytes m (body, rest, e, small, decoded) =
      ground (arith, deserialize_message-message bincode body rest small)

  deserialize_message-serialize_message :
      (m : Message) (bytes rest : List ℕ)
      → ReadsBack bincode
      → serialize_message bincode m ≡ ok bytes
      → deserialize_message bincode (bytes ++ rest) ≡ ok m
  unfolding deserialize_body
  deserialize_message-serialize_message m bytes rest law e =
      let (body, s, small, b) = serialize_message-ok m bytes e in
      ground (arith, deserialize_message-message bincode body rest small, law m body s)

  -- On a list of bytes, a message is read exactly if the bytes begin with the header and the
  -- body of a message of at most max_message_size bytes, and bincode reads the message from
  -- that body.
  pub deserialize_message-ok_iff :
      (bytes : List ℕ) (m : Message)
      → All IsByte bytes
      → (deserialize_message bincode bytes ≡ ok m) ↔ IsAccepted bincode bytes m
  deserialize_message-ok_iff bytes m are_bytes = (
    deserialize_message-IsAccepted bincode bytes m (header bytes) are_bytes,
    IsAccepted-ok bytes m,
  )

  pub serialize_message-cut :
      (m : Message) (bytes front back : List ℕ) (x : ℕ)
      → serialize_message bincode m ≡ ok bytes
      → bytes ≡ front ++ x ∷ back
      → (deserialize_message bincode front ≡ err too_short)
        ⊎ (deserialize_message bincode front ≡ err incomplete)
  serialize_message-cut m bytes front back x e cut =
      let (body, s, small, b) = serialize_message-ok m bytes e in
      deserialize_message-cut bincode front back body x (header front) small (sym b ∙ cut)

module _ {ZhtpRequest ZhtpResponse : Type 0} (requests : Bincode ZhtpRequest)
    (responses : Bincode ZhtpResponse) where
  -- If bincode reads back the bodies that it wrote, of requests and of responses: the bytes
  -- that serialize_request gives for a request, and any bytes behind them,
  -- deserialize_request reads as that request; and the same for serialize_response and
  -- deserialize_response.
  pub deserialize-serialize :
      ReadsBack requests
      → ReadsBack responses
      → ((request : ZhtpRequest) (bytes rest : List ℕ)
          → serialize_request requests responses request ≡ ok bytes
          → deserialize_request requests responses (bytes ++ rest) ≡ ok request)
        × ((response : ZhtpResponse) (bytes rest : List ℕ)
            → serialize_response requests responses response ≡ ok bytes
            → deserialize_response requests responses (bytes ++ rest) ≡ ok response)
  unfolding serialize_request deserialize_request serialize_response deserialize_response
  deserialize-serialize request_law response_law = (
    λ request bytes rest e.
        deserialize_message-serialize_message requests request bytes rest request_law e,
    λ response bytes rest e.
        deserialize_message-serialize_message responses response bytes rest response_law e,
  )

  pub deserialize_request-nil : deserialize_request requests responses [] ≡ err too_short
  unfolding deserialize_request
  deserialize_request-nil = deserialize_message_short requests [] (omega arith)

  pub serialize_request-cut :
      (request : ZhtpRequest) (bytes front back : List ℕ) (x : ℕ)
      → serialize_request requests responses request ≡ ok bytes
      → bytes ≡ front ++ x ∷ back
      → (deserialize_request requests responses front ≡ err too_short)
        ⊎ (deserialize_request requests responses front ≡ err incomplete)
  unfolding serialize_request deserialize_request
  serialize_request-cut = serialize_message-cut requests

  -- A serialized request begins with the magic and the version.
  pub serialize_request-ok :
      (request : ZhtpRequest) (bytes : List ℕ)
      → serialize_request requests responses request ≡ ok bytes
      → (rest : List ℕ) × (bytes ≡ 90 ∷ 72 ∷ 84 ∷ 80 ∷ 1 ∷ rest)
  unfolding serialize_request message
  serialize_request-ok request bytes e =
      let (body, s, small, b) = serialize_message-ok requests request bytes e in
      (to_be_bytes (length body) ++ body, b)

  -- Bytes that begin with the version are no message.
  pub deserialize_request_headless :
      (rest : List ℕ)
      → (e : DeserializeError) × ((e ≡ too_short) ⊎ (e ≡ invalid_magic))
        × (deserialize_request requests responses (1 ∷ rest) ≡ err e)
  unfolding deserialize_request
  deserialize_request_headless rest =
      deserialize_message_headless requests (1 ∷ rest) refl (header (1 ∷ rest))
