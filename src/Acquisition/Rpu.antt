-- ===== src/Acquisition/Rpu.antt =====
-- common/msap1/acquisition/rpu/protocol.cpp: messages to and from the real-time processor. The header
-- is a packed record, copied by `memcpy` on a little-endian machine; a payload is kept as its bytes.
pub mod RoundTrip
pub mod Examples
use msap1_apu.Prelude.{
  ℕ, ◌+◌, ◌-◌, ◌%◌, ◌^◌, not, ◌||◌, List, [], ◌∷◌, ◌++◌, Result, ok, err, ◌>>=◌, ◌>>◌, ensure, ltb,
  ◌==◌, length, take, drop,
}
use msap1_apu.Ipc.Bytes.Little.{digits, from_digits}

pub data ProtocolError : Type 0 where
  invalid_payload invalid_frame_length invalid_magic unsupported_version length_mismatch :
      ProtocolError
  unexpected_message zero_generation : ProtocolError

abbrev pub rpu_magic : ℕ
rpu_magic = 0x4d525055

abbrev pub rpu_version : ℕ
rpu_version = 11

abbrev pub maximum_frame_size : ℕ
maximum_frame_size = 384

abbrev pub header_size : ℕ
header_size = 16

abbrev pub status_ok : ℕ
status_ok = 0

pub record Message : Type 0 where
  pub magic : ℕ
  pub version : ℕ
  pub type : ℕ
  pub payload_len : ℕ
  pub sequence : ℕ
  pub status : ℕ
  pub payload : List ℕ

-- The bytes of a header.
unfoldable pub header_bytes : ℕ → ℕ → ℕ → ℕ → ℕ → ℕ → List ℕ
header_bytes magic version type payload_len sequence status =
    digits 4 magic
    ++ (digits 1 version
        ++ (digits 1 type ++ (digits 2 payload_len ++ (digits 4 sequence ++ digits 4 status))))

unfoldable pub encode_request : ℕ → ℕ → List ℕ → Result ProtocolError (List ℕ)
encode_request type sequence payload = do
  ensure (not (ltb (maximum_frame_size - header_size) (length payload))) invalid_payload
  ok (
      header_bytes rpu_magic rpu_version type (length payload % 2 ^ 16) sequence status_ok
      ++ payload)

-- The field of `size` bytes at an offset.
unfoldable pub field : ℕ → ℕ → List ℕ → ℕ
field offset size bytes = from_digits (take size (drop offset bytes))

unfoldable pub decode_message : List ℕ → Result ProtocolError Message
decode_message bytes = do
  ensure (not (ltb (length bytes) header_size || ltb maximum_frame_size (length bytes)))
      invalid_frame_length
  ensure (field 0 4 bytes == rpu_magic) invalid_magic
  ensure (field 4 1 bytes == rpu_version) unsupported_version
  ensure (header_size + field 6 2 bytes == length bytes) length_mismatch
  ok (record {
    magic = field 0 4 bytes;
    version = field 4 1 bytes;
    type = field 5 1 bytes;
    payload_len = field 6 2 bytes;
    sequence = field 8 4 bytes;
    status = field 12 4 bytes;
    payload = drop header_size bytes;
  })

-- What all `decode_…` functions of a response check.
unfoldable pub expect : ℕ → ℕ → Message → Result ProtocolError (List ℕ)
expect type size message = do
  ensure (message.type == type) unexpected_message
  ensure (message.status == status_ok) unexpected_message
  ensure (length message.payload == size) unexpected_message
  ok message.payload

unfoldable pub decode_adc_health : Message → Result ProtocolError (List ℕ)
decode_adc_health message = expect 12 262 message

unfoldable pub decode_aggregation_health : Message → Result ProtocolError (List ℕ)
decode_aggregation_health message = expect 18 216 message

unfoldable pub decode_demand_config_ack : Message → Result ProtocolError (List ℕ)
decode_demand_config_ack message = do
  acknowledgement ← expect 20 16 message
  ensure (not (field 12 4 acknowledgement == 0)) zero_generation
  ok acknowledgement

unfoldable pub decode_m18_config_ack : Message → Result ProtocolError (List ℕ)
decode_m18_config_ack message = do
  acknowledgement ← expect 22 8 message
  ensure (not (field 0 4 acknowledgement == 0)) zero_generation
  ok acknowledgement

unfoldable pub decode_adc_diagnostic : Message → Result ProtocolError (List ℕ)
decode_adc_diagnostic message = expect 15 188 message

unfoldable pub decode_meter_config_ack : Message → Result ProtocolError (List ℕ)
decode_meter_config_ack message = expect 6 36 message

unfoldable pub decode_simulator_event_ack : Message → Result ProtocolError (List ℕ)
decode_simulator_event_ack message = expect 6 20 message
