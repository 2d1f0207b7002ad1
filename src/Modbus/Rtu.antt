-- ===== src/Modbus/Rtu.antt =====
-- common/mnc/modbus/rtu_server.cpp: the frame assembler, the reads of a port, the CRC check and
-- `process_frame`. The CRC itself is Boost's and a parameter.
pub mod Assembly
pub mod Reads
pub mod Frames
pub mod Port
pub mod Examples
use msap1_apu.Prelude.{
  ℕ, zero, suc, ◌+◌, ◌-◌, ◌/◌, ◌^◌, ◌<◌, ◌≡◌, Bool, true, false, not, ◌&&◌, ◌||◌, List, [], ◌∷◌,
  ◌++◌, Option, none, some, Result, ok, err, bit_and, ltb, ◌==◌, if◌then◌else◌, length, take, drop,
  get_or,
}
use msap1_apu.Modbus.Encoding.{Error}
use msap1_apu.Modbus.Handler.{
  RegisterBank, Request, Response, handle, read_holding_registers, read_input_registers,
  write_single_register, write_multiple_registers,
}

abbrev pub maximum_rtu_frame_size : ℕ
maximum_rtu_frame_size = 256

-- `frame_size` on a buffer of at least two bytes whose second one is `function`.
size_of : ℕ → List ℕ → Option ℕ
size_of function bytes =
    if function == read_holding_registers
      || function == read_input_registers
      || function == write_single_register
    then some 8
    else if function == write_multiple_registers
    then (if ltb (length bytes) 7 then none else some (9 + get_or bytes 6 0))
    else none

unfoldable pub frame_size : List ℕ → Option ℕ
unfolding size_of
frame_size [] = none
frame_size (unit ∷ []) = none
frame_size (unit ∷ function ∷ bytes) = size_of function (unit ∷ function ∷ bytes)

-- What `push` leaves: the complete frames and the buffer, or the exception after which the buffer
-- is empty. `unfinished` is no C++ value: the loop ran out of fuel.
pub data Pushed : Type 0 where
  ready : List (List ℕ) → List ℕ → Pushed
  length_error : Pushed
  unfinished : Pushed

unfoldable pub push_loop : ℕ → List ℕ → List (List ℕ) → Pushed
push_loop zero buffer frames = unfinished
push_loop (suc fuel) buffer frames = elim (frame_size buffer) [
  | none ↦ if ltb maximum_rtu_frame_size (length buffer) then length_error else ready frames buffer
  | some size ↦
      (let next = push_loop fuel (drop size buffer) (frames ++ (take size buffer ∷ [])) in
        if ltb maximum_rtu_frame_size size
        then length_error
        else if ltb (length buffer) size
        then ready frames buffer
        else next)
]

-- Every round but the last takes a frame of at least 8 bytes, so this fuel is enough.
unfoldable pub push : List ℕ → List ℕ → Pushed
push buffer bytes = push_loop (suc (length (buffer ++ bytes))) (buffer ++ bytes) []

-- What a port's `run` makes of its reads, in which no silent interval falls: the frames for
-- `process_frame`, which throws nothing, whether an exception was reported, and the buffer. An
-- exception leaves no frames.
abbrev pub Received : Type 0
Received = List (List ℕ) × (Bool × List ℕ)

unfoldable pub pushed_read : Pushed → Received
pushed_read (ready frames rest) = (frames, (false, rest))
pushed_read length_error = ([], (true, []))
pushed_read unfinished = ([], (false, []))

abbrev pub followed_by : Received → Received → Received
followed_by (frames, (threw, rest)) (more, (threw_later, last)) =
    (frames ++ more, (threw || threw_later, last))

unfoldable pub read_loop : List ℕ → List (List ℕ) → Received
unfolding push pushed_read
read_loop buffer [] = ([], (false, buffer))
read_loop buffer (input ∷ inputs) =
    let received = pushed_read (push buffer input) in
    followed_by received (read_loop received.1.1 inputs)

-- The frame that a silent interval ends, and the buffer after it.
unfoldable pub finish_on_silence : List ℕ → Option (List ℕ) × List ℕ
finish_on_silence [] = (none, [])
finish_on_silence (b ∷ buffer) = (some (b ∷ buffer), [])

-- boost::crc_optimal<16, 0x8005, 0xffff, 0x0000, true, true>, of which the code only uses that the
-- checksum is a 16-bit number.
pub record Crc : Type 0 where
  pub checksum : List ℕ → ℕ
  pub checksum_fits : (bytes : List ℕ) → checksum bytes < 2 ^ 16

module _ (crc : Crc) where
  abbrev pub crc16 : List ℕ → ℕ
  crc16 = crc.checksum

  unfoldable pub valid_crc : List ℕ → Bool
  valid_crc frame =
      let size = length frame in
      let expected = crc16 (take (size - 2) frame) in
      if ltb size 4
      then false
      else get_or frame (size - 2) 0 == bit_and expected 0xff
        && get_or frame (size - 1) 0 == expected / 2 ^ 8

  unfoldable pub append_crc : List ℕ → List ℕ
  append_crc output = (output ++ (bit_and (crc16 output) 0xff ∷ [])) ++ (crc16 output / 2 ^ 8 ∷ [])

  -- What `process_frame` does: nothing but a report, no response, a frame for the output queue, or
  -- the handler's exception.
  pub data Processed (bank : RegisterBank) : Type 0 where
    crc_mismatch : Processed bank
    no_response : bank.State → Processed bank
    output : List ℕ → bank.State → Processed bank
    failed : Error → Processed bank

  module _ (bank : RegisterBank) (unit_id : ℕ) where
    respond : Result Error (Option Response × bank.State) → Processed bank
    respond (err e) = failed e
    respond (ok (none, s)) = no_response s
    respond (ok (some r, s)) = output (append_crc (r.unit_id ∷ r.pdu)) s

    unfoldable pub process_frame : bank.State → List ℕ → Processed bank
    unfolding respond append_crc
    process_frame s frame =
        if not (valid_crc frame)
        then crc_mismatch
        else respond (
            handle bank s
              (record {
                unit_id = get_or frame 0 0;
                pdu = take (length frame - 3) (drop 1 frame);
                broadcast_allowed = true;
              })
              unit_id)
