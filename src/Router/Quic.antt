-- ===== src/Router/Quic.antt =====
-- src/server/quic_handler.rs: the protocol of a stream is told from its first four bytes, and the
-- stream is handed on. What answers legacy HTTP is the parameter `handle_http_over_quic`.
pub mod Native
use Prim.Native.String.{String}
use zhtp.Base.{ℕ, Bool, true, false, ◌||◌, ◌&&◌, List, [], ◌∷◌, if◌then◌else◌, ◌==◌}
use zhtp.Base.Result.{Result, ok, err}
use zhtp.Serialization.{zhtp_magic}
use zhtp.Router.{Env, ZhtpRouter, StreamError, handle_zhtp_stream}

pub data ProtocolType : Type 0 where
  native_zhtp legacy_http unknown : ProtocolType

pub data HandlerError : Type 0 where
  stream_error : StreamError → HandlerError
  legacy_error magic_not_read : String → HandlerError
  unknown_protocol : HandlerError

-- `==` of byte strings
pub same_bytes : List ℕ → List ℕ → Bool
same_bytes [] [] = true
same_bytes [] (_ ∷ _) = false
same_bytes (_ ∷ _) [] = false
same_bytes (a ∷ as_) (b ∷ bs) = (a == b) && same_bytes as_ bs

-- `GET `, `POST`, `PUT `, `DELE`, `HEAD` and `OPTI`; four bytes that begin with such a text are it.
abbrev pub is_http_magic : List ℕ → Bool
is_http_magic magic =
    same_bytes magic (71 ∷ 69 ∷ 84 ∷ 32 ∷ [])
    || same_bytes magic (80 ∷ 79 ∷ 83 ∷ 84 ∷ [])
    || same_bytes magic (80 ∷ 85 ∷ 84 ∷ 32 ∷ [])
    || same_bytes magic (68 ∷ 69 ∷ 76 ∷ 69 ∷ [])
    || same_bytes magic (72 ∷ 69 ∷ 65 ∷ 68 ∷ [])
    || same_bytes magic (79 ∷ 80 ∷ 84 ∷ 73 ∷ [])

abbrev pub protocol_of : List ℕ → ProtocolType
protocol_of magic =
    if same_bytes magic zhtp_magic
    then native_zhtp
    else if is_http_magic magic
    then legacy_http
    else unknown

module _ (env : Env) (handle_http_over_quic : env.World → Result String Unit × env.World) where
  open env use {World, read_exact}

  -- The four bytes are taken off the stream.
  pub detect_protocol : World → Result HandlerError ProtocolType × World
  detect_protocol w =
      let (magic, w') = read_exact 4 w in
      elim magic [ err e ↦ (err (magic_not_read e), w') | ok bytes ↦ (ok (protocol_of bytes), w') ]

  abbrev pub of_stream : Result StreamError Unit × World → Result HandlerError Unit × World
  of_stream (ok _, w) = (ok tt, w)
  of_stream (err e, w) = (err (stream_error e), w)

  abbrev pub of_legacy : Result String Unit × World → Result HandlerError Unit × World
  of_legacy (ok _, w) = (ok tt, w)
  of_legacy (err e, w) = (err (legacy_error e), w)

  pub handle_stream : ZhtpRouter env → World → Result HandlerError Unit × World
  handle_stream r w =
      let (protocol, w') = detect_protocol w in
      elim protocol [
        | err e ↦ (err e, w')
        | ok native_zhtp ↦ of_stream (handle_zhtp_stream env r w')
        | ok legacy_http ↦ of_legacy (handle_http_over_quic w')
        | ok unknown ↦ (err unknown_protocol, w')
      ]
