-- ===== src/Acquisition/Rpu/RoundTrip.antt =====
-- A message is read back as it was written.
use msap1_apu.Prelude.{
  ℕ, ◌+◌, ◌%◌, ◌^◌, ◌≤◌, ◌<◌, ◌≡◌, refl, List, ◌++◌, ok, err, ◌>>=◌, ltb, length, arith, Bool-cases,
  inl, inr, if◌then◌else◌, length-drop,
}
use msap1_apu.Ipc.Bytes.Little.{digits, from_digits-digits}
use msap1_apu.Acquisition.Rpu.{
  invalid_payload, Message, header_bytes, encode_request, decode_message, field, rpu_magic,
  rpu_version, status_ok,
}

-- The processor answers a request with the type and the sequence number of the request, in the same
-- layout and with its own status; whatever it sends in at most 384 bytes is read back field by field.
pub decode-header_bytes :
    (type sequence status : ℕ) (payload : List ℕ)
    → type < 2 ^ 8
    → sequence < 2 ^ 32
    → status < 2 ^ 32
    → length payload ≤ 368
    → decode_message
        (header_bytes rpu_magic rpu_version type (length payload) sequence status ++ payload)
      ≡ ok (record {
        magic = rpu_magic;
        version = rpu_version;
        type = type;
        payload_len = length payload;
        sequence = sequence;
        status = status;
        payload = payload;
      })
unfolding decode_message field header_bytes digits
decode-header_bytes type sequence status payload ht hs hst small =
    rw
      (
        from_digits-digits 4 rpu_magic (omega arith),
        from_digits-digits 1 rpu_version (omega arith),
        from_digits-digits 1 type (omega arith),
        from_digits-digits 2 (length payload) (omega arith),
        from_digits-digits 4 sequence (omega arith),
        from_digits-digits 4 status (omega arith),
      )
      (ground arith)

-- A request is read back from its encoding with its type, its sequence number and its payload, under
-- the status of a success; a longer payload than a frame can hold is refused.
pub encode_request_read :
    (type sequence : ℕ) (payload : List ℕ)
    → type < 2 ^ 8
    → sequence < 2 ^ 32
    → (encode_request type sequence payload >>= decode_message) ≡ (
        if ltb 368 (length payload)
        then err invalid_payload
        else ok (record {
          magic = rpu_magic;
          version = rpu_version;
          type = type;
          payload_len = length payload;
          sequence = sequence;
          status = status_ok;
          payload = payload;
        }))
unfolding encode_request
encode_request_read type sequence payload ht hs = elim (Bool-cases (ltb 368 (length payload))) [
  | inl long ↦ rw (long) refl
  | inr fits ↦
      (let small : length payload ≤ 368 = ground arith in
        let len : length payload % 2 ^ 16 ≡ length payload = omega arith in
        rw (fits, len)
          (decode-header_bytes type sequence status_ok payload ht hs (omega arith) small))
]

-- Whatever is decoded as a message has a size between 16 and 384 bytes, the magic number and the
-- version of the protocol, and exactly the payload that its header announces.
pub decode_message_sound :
    (bytes : List ℕ) (m : Message)
    → decode_message bytes ≡ ok m
    → (length bytes ≤ 384)
      × (m.magic ≡ rpu_magic)
      × (m.version ≡ rpu_version)
      × (16 + length m.payload ≡ length bytes)
      × (m.payload_len ≡ length m.payload)
unfolding decode_message
decode_message_sound bytes m e = ground (arith, length-drop 16 bytes)
