-- ===== src/Modbus/Examples.antt =====
-- The Modbus server on a concrete register bank and concrete requests.
use msap1_apu.Prelude.{
  true, false, ℕ, zero, suc, ◌+◌, ◌/◌, ◌%◌, ◌^◌, ◌≡◌, ◌≢◌, inl, refl, false, List, [], ◌∷◌, ◌++◌,
  map, ok, arith, All, replicate,
}
use msap1_apu.Modbus.Encoding.{IsWord}
use msap1_apu.Modbus.Handler.{
  ExceptionCode, no_exception, illegal_data_address, Request, RegisterReadResult, RegisterBank,
  handle,
}
use msap1_apu.Modbus.Handler.Requests.{
  Command, read_registers, write_many, encode_answer, IsCommand, HasWords, serve,
}
use msap1_apu.Modbus.Handler.Replies.{handle_served, request_of, answered}
use msap1_apu.Modbus.Handler.Bounds.{Fits, handle-Fits}
use msap1_apu.Modbus.Rtu.{
  read_loop, Crc, crc16, ready, unfinished, push, push_loop, frame_size, process_frame, output,
}
use msap1_apu.Modbus.Rtu.Assembly.{push-ne-unfinished}
use msap1_apu.Modbus.Rtu.Reads.{read_loop-Agrees}
use msap1_apu.Modbus.Rtu.Frames.{framed, concat, push_requests, process_served}

-- A bank whose registers all hold the number in its state; address 0 can be written.
abbrev read_same : ℕ → ℕ → ℕ → ℕ → RegisterReadResult
read_same s function address count = record {
  exception = no_exception;
  values = replicate count (s % 2 ^ 16);
}

abbrev write_zero : ℕ → ℕ → ℕ → ExceptionCode × ℕ
write_zero s zero value = (no_exception, value)
write_zero s (suc a) value = (illegal_data_address, s)

abbrev write_first : ℕ → ℕ → List ℕ → ExceptionCode × ℕ
write_first s address [] = (no_exception, s)
write_first s address (v ∷ vs) = write_zero s address v

abbrev uniform : RegisterBank
uniform = record {
  State = ℕ;
  read = read_same;
  write_single = write_zero;
  write_multiple = write_first;
}

All-replicate : (n v : ℕ) → IsWord v → All IsWord (replicate n v)
All-replicate zero v h = tt
All-replicate (suc n) v h = (h, All-replicate n v h)

uniform-HasWords : HasWords uniform
uniform-HasWords s f a c = All-replicate c (s % 2 ^ 16) (omega arith)

-- Three registers from address 1.
abbrev ask : Command
ask = read_registers 0x03 1 3

ask-IsCommand : IsCommand ask
ask-IsCommand = (inl refl, omega arith, omega arith, omega arith)

abbrev set : Command
set = write_many 0 (500 ∷ 6 ∷ [])

set-IsCommand : IsCommand set
set-IsCommand = (omega arith, (omega arith, (omega arith, tt)), omega arith, omega arith)

handle_served_example :
    handle uniform 9 (request_of uniform 17 false set) 17 ≡ ok (answered uniform 9 17 set)
handle_served_example =
    handle_served uniform 9 17 false set uniform-HasWords set-IsCommand (omega arith) (omega arith)

-- A PDU with an unknown function code.
abbrev odd : Request
odd = record { unit_id = 17; pdu = 0x63 ∷ 1 ∷ []; broadcast_allowed = false }

handle-Fits_example : Fits uniform (handle uniform 9 odd 17)
handle-Fits_example = handle-Fits uniform 9 odd 17 (omega arith) (omega arith)

-- A checksum of 16 bits.
abbrev sum : List ℕ → ℕ
sum [] = 0
sum (b ∷ bs) = b + sum bs

abbrev additive : Crc
additive = record { checksum = λ bytes. sum bytes % 2 ^ 16; checksum_fits = λ bytes. omega arith }

push_requests_example :
    push [] (concat (map (framed additive 17) (ask ∷ set ∷ [])))
    ≡ ready (map (framed additive 17) (ask ∷ set ∷ [])) []
push_requests_example =
    push_requests additive 17 (ask ∷ set ∷ []) (ask-IsCommand, (set-IsCommand, tt))

process_served_example :
    let (answer, s') = serve uniform 9 ask in
    let body = 17 ∷ encode_answer ask answer in
    process_frame additive uniform 17 9 (framed additive 17 ask)
    ≡ output (body ++ (crc16 additive body % 256 ∷ crc16 additive body / 256 ∷ [])) s'
process_served_example =
    process_served additive uniform 17 9 ask uniform-HasWords ask-IsCommand (omega arith)
      (omega arith)

-- The first five bytes of a request of eight, then the other three and the start of the next.
read_loop-Agrees_example :
    read_loop [] ((17 ∷ 3 ∷ 0 ∷ 1 ∷ 0 ∷ []) ∷ (3 ∷ 7 ∷ 8 ∷ 17 ∷ []) ∷ [])
    ≡ ((17 ∷ 3 ∷ 0 ∷ 1 ∷ 0 ∷ 3 ∷ 7 ∷ 8 ∷ []) ∷ [], (false, 17 ∷ []))
unfolding push push_loop frame_size
read_loop-Agrees_example =
    read_loop-Agrees [] (17 ∷ 3 ∷ 0 ∷ 1 ∷ 0 ∷ []) ((3 ∷ 7 ∷ 8 ∷ 17 ∷ []) ∷ [])

-- A request of eight bytes, and the start of a write that announces 255 bytes: in one read the
-- request is lost with the write, in two it is not.
abbrev short_request : List ℕ
short_request = 17 ∷ 3 ∷ 0 ∷ 1 ∷ 0 ∷ 3 ∷ 7 ∷ 8 ∷ []

abbrev long_write : List ℕ
long_write = 17 ∷ 16 ∷ 0 ∷ 0 ∷ 0 ∷ 127 ∷ 255 ∷ []

lost_in_one_read : read_loop [] ((short_request ++ long_write) ∷ []) ≡ ([], (true, []))
unfolding read_loop push push_loop frame_size
lost_in_one_read = refl

delivered_in_two_reads :
    read_loop [] (short_request ∷ long_write ∷ []) ≡ (short_request ∷ [], (true, []))
unfolding read_loop push push_loop frame_size
delivered_in_two_reads = refl

push-ne-unfinished_example : push [] (17 ∷ 0x63 ∷ 1 ∷ []) ≢ unfinished
push-ne-unfinished_example = push-ne-unfinished [] (17 ∷ 0x63 ∷ 1 ∷ [])
