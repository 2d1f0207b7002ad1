-- ===== src/Ipc/Examples.antt =====
-- The protocol of common/mnc/ipc on concrete frames, connections and sockets.
use msap1_apu.Prelude.{
  ℕ, ◌+◌, ◌≡◌, refl, false, List, [], ◌∷◌, ◌++◌, none, some, arith, Result, ok, err, ltb,
  if◌then◌else◌, length, take, drop, take-append_exact, drop-append_exact, le→ltb, length-append,
  All, count, ◌⊎◌,
}
use msap1_apu.Ipc.Bytes.{
  Error, end_of_stream, IsByte, write_fixed_string, write_u64, append_little, append_little_loop,
  write_u32, write_u16, read_u32, read_uint, take_bytes, reader, read_little, read_little_loop,
  read_u16, read_u64, require_finished,
}
use msap1_apu.Ipc.Envelope.{Frame, Socket, encode_envelope, decode_envelope, valid_kind}
use msap1_apu.Ipc.Envelope.RoundTrip.{
  IsWire, Decoded, decode-encode_envelope, decode_envelope_sound,
}
use msap1_apu.Ipc.Envelope.Stream.{
  send_all, wire_bytes, receive_all, IsCarried, receive_all-send_all,
}
use msap1_apu.Ipc.Queue.{Limits, Event, enqueued, finished, connected, run}
use msap1_apu.Ipc.Queue.Bounds.{IsValid, queue_bounded}
use msap1_apu.Ipc.Queue.Callbacks.{callbacks_balanced, notified, waiting, requested}
use msap1_apu.Ipc.Queue.Order.{fifo_order, admitted, started, behind}

-- A socket whose peer has sent these bytes and then closes.
abbrev read_exactly : ℕ → List ℕ → Result Error (List ℕ × List ℕ)
read_exactly n s = if ltb (length s) n then err end_of_stream else ok (take n s, drop n s)

read_exactly_lem :
    (s bytes rest : List ℕ)
    → s ≡ bytes ++ rest
    → (t : List ℕ) × (read_exactly (length bytes) s ≡ ok (bytes, t)) × (t ≡ rest)
read_exactly_lem s bytes rest e =
    let long : length (bytes ++ rest) ≡ length bytes + length rest = length-append bytes rest in
    (
      rest,
      rw (
        e,
        le→ltb (length (bytes ++ rest)) (length bytes) (omega arith),
        take-append_exact (length bytes) bytes rest refl,
        drop-append_exact (length bytes) bytes rest refl,
      ),
      refl,
    )

abbrev buffered : Socket
buffered = record {
  State = List ℕ;
  async_read = read_exactly;
  arriving = λ s. s;
  async_read_exact = read_exactly_lem;
}

abbrev ping : Frame
ping = record { kind = 1; message_type = 7; correlation_id = 42; payload = 1 ∷ 2 ∷ 3 ∷ [] }

abbrev pong : Frame
pong = record { kind = 2; message_type = 7; correlation_id = 42; payload = [] }

ping-IsWire : IsWire ping
ping-IsWire = record {
  known = unfold valid_kind in refl;
  kind_fits = omega arith;
  type_fits = omega arith;
  correlation_fits = omega arith;
  size_fits = omega arith;
}

pong-IsWire : IsWire pong
pong-IsWire = record {
  known = unfold valid_kind in refl;
  kind_fits = omega arith;
  type_fits = omega arith;
  correlation_fits = omega arith;
  size_fits = omega arith;
}

-- The header of `ping`.
abbrev ping_header : List ℕ
ping_header =
    0x4d ∷ 0x4e ∷ 0x43 ∷ 0x49 ∷ 1 ∷ 0 ∷ 1 ∷ 0 ∷ 7 ∷ 0 ∷ 0 ∷ 0 ∷ 3 ∷ 0 ∷ 0 ∷ 0 ∷ 42 ∷ 0 ∷ 0 ∷ 0 ∷ 0
    ∷ 0 ∷ 0 ∷ 0 ∷ []

encode_ping : encode_envelope ping ≡ ok ping_header
unfolding encode_envelope valid_kind write_u64 append_little append_little_loop write_u32 write_u16
encode_ping = refl

decode_ping : decode_envelope ping_header (1 ∷ 2 ∷ 3 ∷ []) 16 ≡ ok ping
unfolding decode_envelope read_u32 read_uint take_bytes reader read_little read_little_loop read_u16
    valid_kind read_u64 require_finished
decode_ping = refl

decode-encode_envelope_example : decode_envelope ping_header ping.payload 16 ≡ ok ping
decode-encode_envelope_example =
    decode-encode_envelope ping 16 ping-IsWire (omega arith) encode_ping

ping_bytes : All IsByte ping_header
ping_bytes = omega arith

decode_envelope_sound_example : Decoded ping_header (1 ∷ 2 ∷ 3 ∷ []) 16 ping
decode_envelope_sound_example =
    decode_envelope_sound ping_header (1 ∷ 2 ∷ 3 ∷ []) 16 ping ping_bytes decode_ping

abbrev conversation : List Frame
conversation = ping ∷ pong ∷ []

abbrev pong_header : List ℕ
pong_header =
    0x4d ∷ 0x4e ∷ 0x43 ∷ 0x49 ∷ 1 ∷ 0 ∷ 2 ∷ 0 ∷ 7 ∷ 0 ∷ 0 ∷ 0 ∷ 0 ∷ 0 ∷ 0 ∷ 0 ∷ 42 ∷ 0 ∷ 0 ∷ 0 ∷ 0
    ∷ 0 ∷ 0 ∷ 0 ∷ []

send_conversation : send_all conversation ≡ ok (ping_header ++ (1 ∷ 2 ∷ 3 ∷ pong_header))
unfolding send_all wire_bytes encode_envelope valid_kind write_u64 append_little append_little_loop
    write_u32 write_u16
send_conversation = refl

carried : All (IsCarried 16) conversation
carried = (
  record { wire = ping-IsWire; small = omega arith },
  (record { wire = pong-IsWire; small = omega arith }, tt),
)

receive_all-send_all_example :
    (t : List ℕ) × (receive_all buffered 2 16 (ping_header ++ (1 ∷ 2 ∷ 3 ∷ pong_header) ++ (9 ∷ []))
      ≡ ok (conversation, t))
    × (t ≡ 9 ∷ [])
receive_all-send_all_example =
    receive_all-send_all buffered conversation 16
      (ping_header ++ (1 ∷ 2 ∷ 3 ∷ pong_header) ++ (9 ∷ [])) (9 ∷ []) carried send_conversation refl

abbrev name : List ℕ
name = 77 ∷ 49 ∷ []

write_name : write_fixed_string (5 ∷ []) name 4 ≡ ok (5 ∷ 77 ∷ 49 ∷ 0 ∷ 0 ∷ [])
unfolding write_fixed_string
write_name = refl

abbrev narrow : Limits
narrow = record { max_queued_frames = 2; max_queued_bytes = 64 }

-- Three frames on a connection that queues two, an end of the first write, and its failure.
abbrev busy : List Event
busy =
    enqueued (record { bytes = 1 ∷ []; done = 1 })
    ∷ enqueued (record { bytes = 2 ∷ []; done = 2 })
    ∷ finished none
    ∷ enqueued (record { bytes = 3 ∷ []; done = 3 })
    ∷ enqueued (record { bytes = 4 ∷ []; done = 4 })
    ∷ finished (some 5)
    ∷ []

queue_bounded_example : IsValid narrow (run narrow connected busy).0
queue_bounded_example = queue_bounded narrow (omega arith) busy

callbacks_balanced_example :
    let (c, actions) = run narrow connected busy in
    count 3 (notified actions) + count 3 (waiting c.writes) ≡ count 3 (requested busy)
callbacks_balanced_example = callbacks_balanced narrow 3 (omega arith) busy

fifo_order_example :
    let (c, actions) = run narrow connected busy in
    (dropped : List (List ℕ)) × (admitted narrow connected busy
      ≡ started actions ++ (behind c ++ dropped))
    × ((dropped ≡ []) ⊎ (c.is_open ≡ false))
fifo_order_example = fifo_order narrow (omega arith) busy
