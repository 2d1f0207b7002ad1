-- ===== src/Acquisition/Rpu/Examples.antt =====
-- Concrete messages of the real-time processor.
use msap1_apu.Prelude.{
  ℕ, ◌+◌, ◌≤◌, ◌≡◌, refl, List, [], ◌∷◌, ok, err, ◌>>=◌, ltb, if◌then◌else◌, length, arith,
}
use msap1_apu.Ipc.Bytes.Little.{from_digits}
use msap1_apu.Acquisition.Rpu.{
  invalid_payload, Message, encode_request, decode_message, field, rpu_magic, rpu_version,
  status_ok,
}
use msap1_apu.Acquisition.Rpu.RoundTrip.{encode_request_read, decode_message_sound}

encode_request_read_example : (encode_request 12 77 (1 ∷ 2 ∷ []) >>= decode_message) ≡ (
    if ltb 368 2
    then err invalid_payload
    else ok (record {
      magic = rpu_magic;
      version = rpu_version;
      type = 12;
      payload_len = 2;
      sequence = 77;
      status = status_ok;
      payload = 1 ∷ 2 ∷ [];
    }))
encode_request_read_example = encode_request_read 12 77 (1 ∷ 2 ∷ []) (omega arith) (omega arith)

abbrev reply_bytes : List ℕ
reply_bytes = 0x55 ∷ 0x50 ∷ 0x52 ∷ 0x4d ∷ 11 ∷ 6 ∷ 1 ∷ 0 ∷ 9 ∷ 0 ∷ 0 ∷ 0 ∷ 0 ∷ 0 ∷ 0 ∷ 0 ∷ 8 ∷ []

abbrev reply : Message
reply = record {
  magic = rpu_magic;
  version = rpu_version;
  type = 6;
  payload_len = 1;
  sequence = 9;
  status = 0;
  payload = 8 ∷ [];
}

read_reply : decode_message reply_bytes ≡ ok reply
unfolding decode_message field from_digits
read_reply = refl

decode_message_sound_example :
    (length reply_bytes ≤ 384)
    × (reply.magic ≡ rpu_magic)
    × (reply.version ≡ rpu_version)
    × (16 + length reply.payload ≡ length reply_bytes)
    × (reply.payload_len ≡ length reply.payload)
decode_message_sound_example = decode_message_sound reply_bytes reply read_reply
