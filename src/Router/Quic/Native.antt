-- ===== src/Router/Quic/Native.antt =====
-- What becomes of a native request that comes in through the QUIC handler.
use Prim.Native.String.{String}
use zhtp.Base.{ℕ, ◌≤◌, ◌≡◌, List, [], ◌∷◌, arith, ◌⊎◌, ◌∙◌}
use zhtp.Base.Lists.{length}
use zhtp.Base.Result.{Result, ok}
use zhtp.Serialization.{
  DeserializeError, max_message_size, serialize_request, too_short, invalid_magic,
}
use zhtp.Serialization.RoundTrip.{serialize_request-ok, deserialize_request_headless}
use zhtp.Router.{Env, ZhtpRouter, send_response, handle_bytes, handle_zhtp_stream, invalid_request}
use zhtp.Router.Quic.{detect_protocol, same_bytes, handle_stream, of_stream}

module _ (env : Env) (handle_http_over_quic : env.World → Result String Unit × env.World) where
  open env use {
    World, ZhtpRequest, error, bad_request, requests, responses, read_exact, read_to_end,
  }

  -- The documented behaviour of a stream with these bytes to come: `read_exact` takes as many as it
  -- is asked for, `read_to_end` all if the limit allows.
  pub record ReadsInOrder (pending : World → List ℕ) : Type 0 where
    pub exact :
        (a b c d : ℕ) (rest : List ℕ) (w : World)
        → pending w ≡ a ∷ b ∷ c ∷ d ∷ rest
        → (w' : World) × (read_exact 4 w ≡ (ok (a ∷ b ∷ c ∷ d ∷ []), w')) × (pending w' ≡ rest)
    pub to_end :
        (limit : ℕ) (w : World)
        → length (pending w) ≤ limit
        → (w' : World) × (read_to_end limit w ≡ (ok (pending w), w'))

  -- If a stream reads its bytes in order and to the end within the limit: a request that
  -- serialize_request wrote, in at most max_message_size bytes, is not routed by
  -- handle_stream. It is answered as a bad request, as too short or for its magic bytes,
  -- since detect_protocol has taken the magic bytes off the stream.
  pub handle_stream-refuses_native :
      (pending : World → List ℕ) (r : ZhtpRouter env) (request : ZhtpRequest) (bytes : List ℕ)
      (w : World)
      → ReadsInOrder pending
      → serialize_request requests responses request ≡ ok bytes
      → pending w ≡ bytes
      → length bytes ≤ max_message_size
      → (e : DeserializeError) × (w' : World) × ((e ≡ too_short) ⊎ (e ≡ invalid_magic))
        × (handle_stream env handle_http_over_quic r w
            ≡ of_stream env handle_http_over_quic
                (send_response env (error bad_request (invalid_request e)) w'))
  unfolding handle_stream detect_protocol same_bytes handle_zhtp_stream handle_bytes
  handle_stream-refuses_native pending r request bytes w reads e arrived small =
      let (rest, whole) = serialize_request-ok requests responses request bytes e in
      let (w1, magic, left) = reads.exact 90 72 84 80 (1 ∷ rest) w (arrived ∙ whole) in
      let (w2, read) = reads.to_end max_message_size w1 (ground (arith, left, whole, small)) in
      let (error_of, kind, refused) = deserialize_request_headless requests responses rest in
      (error_of, w2, kind, ground (arith, magic, left, read, refused))
