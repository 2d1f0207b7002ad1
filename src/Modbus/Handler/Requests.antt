-- ===== src/Modbus/Handler/Requests.antt =====
-- What a Modbus client sends, what a register bank does with it, and how the handler answers.
use msap1_apu.Prelude.{
  ℕ, ◌+◌, ◌*◌, ◌/◌, ◌%◌, ◌≤◌, ◌≡◌, ◌⊎◌, refl, sym, ap, ◌∙◌, not, List, [], ◌∷◌, ◌++◌, ok, arith,
  ◌==◌, if◌then◌else◌, length, drop, All, drop-drop, append_assoc, append-nil,
}
use msap1_apu.Modbus.Encoding.{
  IsWord, read_u16_be, read_u16_be_lem, append_u16_be_lem, append_u16_be,
}
use msap1_apu.Modbus.Handler.{
  ExceptionCode, server_device_failure, code, RegisterBank, read_values, append_all, is_success,
}

pub data Command : Type 0 where
  read_registers : ℕ → ℕ → ℕ → Command
  write_one : ℕ → ℕ → Command
  write_many : ℕ → List ℕ → Command

-- A word, and words, most significant byte first.
abbrev pub big_endian : List ℕ → List ℕ
big_endian [] = []
big_endian (w ∷ ws) = w / 256 ∷ w % 256 ∷ big_endian ws

abbrev pub encode_command : Command → List ℕ
encode_command (read_registers function address count) =
    function ∷ big_endian (address ∷ count ∷ [])
encode_command (write_one address value) = 0x06 ∷ big_endian (address ∷ value ∷ [])
encode_command (write_many address values) =
    0x10
    ∷ address / 256
    ∷ address % 256
    ∷ length values / 256
    ∷ length values % 256
    ∷ length values * 2
    ∷ big_endian values

-- The limits of the protocol.
abbrev pub IsCommand : Command → Type 0
IsCommand (read_registers function address count) =
    ((function ≡ 0x03) ⊎ (function ≡ 0x04)) × IsWord address × (1 ≤ count) × (count ≤ 125)
IsCommand (write_one address value) = IsWord address × IsWord value
IsCommand (write_many address values) =
    IsWord address × All IsWord values × (1 ≤ length values) × (length values ≤ 123)

pub data Answer : Type 0 where
  refused : ExceptionCode → Answer
  registers : List ℕ → Answer
  written : Answer

abbrev pub function_of : Command → ℕ
function_of (read_registers function address count) = function
function_of (write_one address value) = 0x06
function_of (write_many address values) = 0x10

abbrev pub encode_answer : Command → Answer → List ℕ
encode_answer c (refused e) = (function_of c + 128) ∷ code e ∷ []
encode_answer c (registers values) = function_of c ∷ length values * 2 ∷ big_endian values
encode_answer (read_registers function address count) written = []
encode_answer (write_one address value) written = encode_command (write_one address value)
encode_answer (write_many address values) written = 0x10 ∷ big_endian (address ∷ length values ∷ [])

pub word_read : (w : ℕ) (rest : List ℕ) → IsWord w → read_u16_be (w / 256 ∷ w % 256 ∷ rest) ≡ ok w
word_read w rest h =
    read_u16_be_lem (w / 256) (w % 256) rest (omega arith) (omega arith) ∙ ap ok (omega arith)

pub append_all_lem :
    (vs bytes : List ℕ) → All IsWord vs → append_all bytes vs ≡ bytes ++ big_endian vs
unfolding append_all
append_all_lem [] bytes h = sym (append-nil bytes)
append_all_lem (v ∷ vs) bytes h =
    append_all_lem vs (append_u16_be bytes v) h.1 ∙ rw (append_u16_be_lem bytes v h.0, append_assoc)

pub read_values_lem :
    (vs : List ℕ) (index : ℕ) (pdu : List ℕ)
    → drop (6 + index * 2) pdu ≡ big_endian vs
    → All IsWord vs
    → read_values (length vs) index pdu ≡ ok vs
unfolding read_values
read_values_lem [] index pdu e h = refl
read_values_lem (v ∷ vs) index pdu e (hv, h) =
    let next : drop (6 + (index + 1) * 2) pdu ≡ big_endian vs =
      ap (λ n. drop n pdu) (omega arith) ∙ drop-drop (6 + index * 2) 2 pdu ∙ ap (drop 2) e in
    rw (e, word_read v [] hv, read_values_lem vs (index + 1) pdu next h)

module _ (bank : RegisterBank) where
  open bank use {State, read, write_single, write_multiple}

  unfoldable pub done : ExceptionCode → Answer
  done e = if is_success e then written else refused e

  -- What the bank does for a command, and what there is to tell the client.
  unfoldable pub serve : State → Command → Answer × State
  serve s (read_registers function address count) =
      let r = read s function address count in
      (
        if not (is_success r.exception)
            then refused r.exception
            else if not (length r.values == count)
            then refused server_device_failure
            else registers r.values,
        s,
      )
  serve s (write_one address value) = let (e, s') = write_single s address value in (done e, s')
  serve s (write_many address values) =
      let (e, s') = write_multiple s address values in (done e, s')

  -- The bank's registers are 16 bits wide.
  abbrev pub HasWords : Type 0
  HasWords = (s : State) (f a c : ℕ) → All IsWord (read s f a c).values

pub length-big_endian : (ws : List ℕ) → length (big_endian ws) ≡ length ws * 2
length-big_endian [] = omega arith
length-big_endian (w ∷ ws) = omega (arith, length-big_endian ws)
