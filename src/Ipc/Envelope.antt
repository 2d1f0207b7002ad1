-- ===== src/Ipc/Envelope.antt =====
-- common/mnc/ipc/ipc.cpp and ipc.hpp: the 24-byte envelope of a frame, written before its payload,
-- and the receiving side of a connection.
pub mod RoundTrip
pub mod Stream
use msap1_apu.Prelude.{
  ℕ, zero, suc, ◌+◌, ◌%◌, ◌^◌, ◌≡◌, Bool, not, ◌||◌, ◌&&◌, List, [], ◌∷◌, ◌++◌, Result, ok, err,
  ◌>>=◌, ◌>>◌, ensure, ltb, ◌==◌, length,
}
use msap1_apu.Ipc.Bytes.{
  Error, envelope_length, envelope_magic_mismatch, unsupported_version, invalid_kind,
  payload_too_large, payload_size_mismatch, end_of_stream, write_u16, write_u32, write_u64, reader,
  read_u16, read_u32, read_u64, require_finished,
}

abbrev pub envelope_magic : ℕ
envelope_magic = 0x49434e4d

abbrev pub envelope_version : ℕ
envelope_version = 1

abbrev pub envelope_size : ℕ
envelope_size = 24

-- A `FrameKind` is a uint16; `valid_kind` holds of its four enumerators.
abbrev pub request_kind : ℕ
request_kind = 1

abbrev pub response_kind : ℕ
response_kind = 2

abbrev pub event_kind : ℕ
event_kind = 3

abbrev pub error_kind : ℕ
error_kind = 4

pub record Frame : Type 0 where
  pub kind : ℕ
  pub message_type : ℕ
  pub correlation_id : ℕ
  pub payload : List ℕ

unfoldable pub valid_kind : ℕ → Bool
valid_kind kind =
    kind == request_kind || kind == response_kind || kind == event_kind || kind == error_kind

unfoldable pub encode_envelope : Frame → Result Error (List ℕ)
encode_envelope frame = do
  ensure (valid_kind frame.kind) invalid_kind
  ensure (not (ltb 0xffff_ffff (length frame.payload))) payload_too_large
  let magic = write_u32 [] envelope_magic
  let version = write_u16 magic envelope_version
  let kind = write_u16 version frame.kind
  let message_type = write_u32 kind frame.message_type
  let payload_size = write_u32 message_type (length frame.payload % 2 ^ 32)
  ok (write_u64 payload_size frame.correlation_id)

unfoldable pub decode_envelope : List ℕ → List ℕ → ℕ → Result Error Frame
decode_envelope header payload max_payload = do
  ensure (length header == envelope_size) envelope_length
  (magic, r) ← read_u32 (reader header)
  ensure (magic == envelope_magic) envelope_magic_mismatch
  (version, r) ← read_u16 r
  ensure (version == envelope_version) unsupported_version
  (kind, r) ← read_u16 r
  ensure (valid_kind kind) invalid_kind
  (message_type, r) ← read_u32 r
  (payload_size, r) ← read_u32 r
  (correlation, r) ← read_u64 r
  require_finished r
  ensure (not (ltb max_payload payload_size || not (payload_size == length payload)))
      payload_size_mismatch
  ok (record {
    kind = kind;
    message_type = message_type;
    correlation_id = correlation;
    payload = payload;
  })

-- A connected socket as Boost.Asio gives it to the reader: `async_read` with a buffer of `n` bytes
-- completes with exactly the next `n` bytes that the peer sent, or fails.
pub record Socket : Type 1 where
  pub State : Type 0
  pub async_read : ℕ → State → Result Error (List ℕ × State)
  -- The bytes that are still to arrive.
  pub arriving : State → List ℕ
  pub async_read_exact :
      (s : State) (bytes rest : List ℕ)
      → arriving s ≡ bytes ++ rest
      → (t : State) × (async_read (length bytes) s ≡ ok (bytes, t)) × (arriving t ≡ rest)

module _ (socket : Socket) where
  open socket use {State, async_read}

  -- `if (!payload.empty()) co_await async_read(…)`.
  unfoldable pub read_payload : ℕ → State → Result Error (List ℕ × State)
  read_payload zero s = ok ([], s)
  read_payload (suc n) s = async_read (suc n) s

  -- FramedConnection::receive.
  unfoldable pub receive : ℕ → State → Result Error (Frame × State)
  receive max_payload s = do
    (header, s) ← async_read envelope_size s
    (magic, r) ← read_u32 (reader header)
    ensure (magic == envelope_magic) envelope_magic_mismatch
    (version, r) ← read_u16 r
    ensure (version == envelope_version) unsupported_version
    (kind, r) ← read_u16 r
    ensure (valid_kind kind) invalid_kind
    (message_type, r) ← read_u32 r
    (payload_size, r) ← read_u32 r
    (correlation, r) ← read_u64 r
    ensure (not (ltb max_payload payload_size)) payload_too_large
    (payload, s) ← read_payload payload_size s
    ok (
      record {
        kind = kind;
        message_type = message_type;
        correlation_id = correlation;
        payload = payload;
      },
      s,
    )
