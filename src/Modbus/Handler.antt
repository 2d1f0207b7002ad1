-- ===== src/Modbus/Handler.antt =====
-- common/mnc/modbus/request_handler.cpp, types.hpp and register_bank.hpp: one request PDU to one
-- response PDU, over any register bank.
pub mod Replies
pub mod Requests
pub mod Bounds
use msap1_apu.Prelude.{
  ℕ, ◌+◌, ◌*◌, ◌%◌, ◌^◌, Bool, true, false, not, ◌&&◌, ◌||◌, List, [], ◌∷◌, ◌++◌, Option, none,
  some, Result, ok, err, ◌>>=◌, bit_or, ltb, ◌==◌, if◌then◌else◌, length, take, drop, zero, suc,
}
use msap1_apu.Modbus.Encoding.{Error, invalid_unit_id, read_u16_be, append_u16_be}

pub data ExceptionCode : Type 0 where
  no_exception illegal_function illegal_data_address illegal_data_value : ExceptionCode
  server_device_failure acknowledge server_device_busy memory_parity_error : ExceptionCode
  gateway_path_unavailable gateway_target_device_failed_to_respond : ExceptionCode

abbrev pub code : ExceptionCode → ℕ
code no_exception = 0x00
code illegal_function = 0x01
code illegal_data_address = 0x02
code illegal_data_value = 0x03
code server_device_failure = 0x04
code acknowledge = 0x05
code server_device_busy = 0x06
code memory_parity_error = 0x08
code gateway_path_unavailable = 0x0a
code gateway_target_device_failed_to_respond = 0x0b

-- `FunctionCode` is a uint8; these are its enumerators.
abbrev pub read_holding_registers : ℕ
read_holding_registers = 0x03

abbrev pub read_input_registers : ℕ
read_input_registers = 0x04

abbrev pub write_single_register : ℕ
write_single_register = 0x06

abbrev pub write_multiple_registers : ℕ
write_multiple_registers = 0x10

pub record Request : Type 0 where
  pub unit_id : ℕ
  pub pdu : List ℕ
  pub broadcast_allowed : Bool

pub record Response : Type 0 where
  pub unit_id : ℕ
  pub pdu : List ℕ

pub record RegisterReadResult : Type 0 where
  pub exception : ExceptionCode
  pub values : List ℕ

-- RegisterBank, over the state that an implementation keeps.
pub record RegisterBank : Type 1 where
  pub State : Type 0
  pub read : State → ℕ → ℕ → ℕ → RegisterReadResult
  pub write_single : State → ℕ → ℕ → ExceptionCode × State
  pub write_multiple : State → ℕ → List ℕ → ExceptionCode × State

unfoldable pub is_register_read : ℕ → Bool
is_register_read function = function == read_holding_registers || function == read_input_registers

unfoldable pub exception : ℕ → ExceptionCode → List ℕ
exception function e = bit_or function 0x80 ∷ code e ∷ []

unfoldable pub is_success : ExceptionCode → Bool
is_success no_exception = true
is_success _ = false

-- `read_u16_be(pdu.subspan(at, 2))`.
abbrev pub u16_at : List ℕ → ℕ → Result Error ℕ
u16_at pdu at = read_u16_be (take 2 (drop at pdu))

unfoldable pub append_all : List ℕ → List ℕ → List ℕ
append_all bytes [] = bytes
append_all bytes (v ∷ vs) = append_all (append_u16_be bytes v) vs

-- `for (index = 0; index < count; ++index)`: the rounds left, then `index`.
unfoldable pub read_values : ℕ → ℕ → List ℕ → Result Error (List ℕ)
read_values zero index pdu = ok []
read_values (suc rounds) index pdu = do
  v ← u16_at pdu (6 + index * 2)
  vs ← read_values rounds (index + 1) pdu
  ok (v ∷ vs)

unfoldable pub octet_at : List ℕ → ℕ → ℕ
octet_at pdu at = elim (drop at pdu) [ [] ↦ 0 | b ∷ bs ↦ b ]

module _ (bank : RegisterBank) where
  open bank use {State, read, write_single, write_multiple}

  -- What `handle` returns, or the exception that it throws, and the bank afterwards.
  abbrev pub Outcome : Type 0
  Outcome = Result Error (Option Response × State)

  unfoldable pub reply : State → Request → List ℕ → Outcome
  reply s request pdu = ok (some (record { unit_id = request.unit_id; pdu = pdu }), s)

  unfoldable pub silence : State → Outcome
  silence s = ok (none, s)

  unfoldable pub unless_broadcast : Bool → State → Outcome → Outcome
  unless_broadcast broadcast s answer = if broadcast then silence s else answer

  unfoldable pub handle_read : State → Request → ℕ → Bool → Outcome
  handle_read s request function broadcast =
      let refuse = λ (e : ExceptionCode). reply s request (exception function e) in
      let answer = λ (result : RegisterReadResult) (count : ℕ).
        if not (is_success result.exception)
        then refuse result.exception
        else if not (length result.values == count)
        then refuse server_device_failure
        else reply s request
            (append_all (function ∷ (length result.values * 2) % 2 ^ 8 ∷ []) result.values) in
      if broadcast
      then silence s
      else if not (length request.pdu == 5)
      then refuse illegal_data_value
      else do
        count ← u16_at request.pdu 3
        if count == 0 || ltb 125 count
            then refuse illegal_data_value
            else do address ← u16_at request.pdu 1; answer (read s function address count) count

  unfoldable pub handle_write_single : State → Request → ℕ → Bool → Outcome
  handle_write_single s request function broadcast =
      if not (length request.pdu == 5)
      then unless_broadcast broadcast s (reply s request (exception function illegal_data_value))
      else do
        address ← u16_at request.pdu 1
        value ← u16_at request.pdu 3
        let (e, s') = write_single s address value
        if broadcast
            then silence s'
            else if not (is_success e)
            then reply s' request (exception function e)
            else reply s' request request.pdu

  unfoldable pub handle_write_multiple : State → Request → ℕ → Bool → Outcome
  handle_write_multiple s request function broadcast =
      let refuse =
        unless_broadcast broadcast s (reply s request (exception function illegal_data_value)) in
      if ltb (length request.pdu) 6 then refuse else do
        count ← u16_at request.pdu 3
        let byte_count = octet_at request.pdu 5
        if count == 0
              || ltb 123 count
              || not (byte_count == count * 2)
              || not (length request.pdu == 6 + byte_count)
            then refuse
            else do
              values ← read_values count 0 request.pdu
              address ← u16_at request.pdu 1
              let (e, s') = write_multiple s address values
              if broadcast
                  then silence s'
                  else if not (is_success e)
                  then reply s' request (exception function e)
                  else reply s' request
                      (append_u16_be (append_u16_be (function ∷ []) address) count)

  unfoldable pub dispatch : State → Request → ℕ → Bool → Outcome
  dispatch s request function broadcast =
      if is_register_read function
      then handle_read s request function broadcast
      else if function == write_single_register
      then handle_write_single s request function broadcast
      else if function == write_multiple_registers
      then handle_write_multiple s request function broadcast
      else unless_broadcast broadcast s (reply s request (exception function illegal_function))

  unfoldable pub handle : State → Request → ℕ → Outcome
  unfolding dispatch
  handle s request configured_unit_id =
      if configured_unit_id == 0 || ltb 247 configured_unit_id
      then err invalid_unit_id
      else elim request.pdu [
        | [] ↦ reply s request (exception 0 illegal_function)
        | function ∷ rest ↦
            (let broadcast = request.broadcast_allowed && request.unit_id == 0 in
              if not broadcast && not (request.unit_id == configured_unit_id)
              then silence s
              else dispatch s request function broadcast)
      ]
