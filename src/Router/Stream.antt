-- ===== src/Router/Stream.antt =====
-- A request over a stream: what is serialized is answered, what is not accepted is refused.
use zhtp.Base.{ℕ, ◌≡◌, List, ◌∷◌, ◌++◌, arith, inl, inr}
use zhtp.Base.Result.{ok}
use zhtp.Serialization.{
  DeserializeError, too_short, incomplete, max_message_size, serialize_request,
}
use zhtp.Serialization.RoundTrip.{
  ReadsBack, deserialize-serialize, deserialize_request-nil, serialize_request-cut,
}
use zhtp.Router.{
  Env, ZhtpRouter, respond, send_response, handle_bytes, handle_zhtp_stream, invalid_request,
}

module _ (env : Env) where
  open env use {
    World, ZhtpRequest, ZhtpResponse, error, bad_request, requests, responses, read_to_end,
  }

  -- If bincode reads back what it wrote and the stream brings what serialize_request gave for
  -- a request, with any bytes behind it, handle_zhtp_stream sends the response to that
  -- request.
  pub handle_zhtp_stream-serialize_request :
      (r : ZhtpRouter env) (request : ZhtpRequest) (bytes rest : List ℕ) (w w1 : World)
      → ReadsBack requests
      → ReadsBack responses
      → serialize_request requests responses request ≡ ok bytes
      → read_to_end max_message_size w ≡ (ok (bytes ++ rest), w1)
      → let (response, w2) = respond env r request w1 in
        handle_zhtp_stream env r w ≡ send_response env response w2
  unfolding handle_zhtp_stream handle_bytes
  handle_zhtp_stream-serialize_request r request bytes rest w w1 law law' e arrived = ground (
    arith,
    (deserialize-serialize requests responses law law').0 request bytes rest e,
    deserialize_request-nil requests responses,
  )

  pub handle_zhtp_stream-cut :
      (r : ZhtpRouter env) (request : ZhtpRequest) (bytes back : List ℕ) (b x : ℕ) (front : List ℕ)
      (w w1 : World)
      → serialize_request requests responses request ≡ ok bytes
      → bytes ≡ (b ∷ front) ++ x ∷ back
      → read_to_end max_message_size w ≡ (ok (b ∷ front), w1)
      → (e : DeserializeError) × (handle_zhtp_stream env r w
          ≡ send_response env (error bad_request (invalid_request e)) w1)
  unfolding handle_zhtp_stream handle_bytes
  handle_zhtp_stream-cut r request bytes back b x front w w1 e cut arrived =
      elim (serialize_request-cut requests responses request bytes (b ∷ front) back x e cut) [
        | inl few ↦ (too_short, ground arith)
        | inr part ↦ (incomplete, ground arith)
      ]
