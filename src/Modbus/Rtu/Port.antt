-- ===== src/Modbus/Rtu/Port.antt =====
-- common/mnc/modbus/rtu_server.cpp: the output queue of a serial port (`enqueue_write`,
-- `drain_writes`, `close`) and its silent interval. Each block under `output_mutex` is one step.
pub mod Bounds
use msap1_apu.Prelude.{
  ℕ, zero, suc, ◌+◌, ◌-◌, ◌*◌, ◌/◌, ◌%◌, ◌^◌, ◌≤◌, ◌<◌, ◌≡◌, refl, Bool, true, false, not, ◌||◌,
  ◌&&◌, List, [], ◌∷◌, ◌++◌, Option, none, some, arith, ltb, leb, ◌==◌, if◌then◌else◌, length,
  length-append, Bool-cases, inl, inr,
}
use msap1_apu.Modbus.Rtu.{maximum_rtu_frame_size}

abbrev pub maximum_queued_rtu_responses : ℕ
maximum_queued_rtu_responses = 64

abbrev pub maximum_queued_rtu_bytes : ℕ
maximum_queued_rtu_bytes = maximum_queued_rtu_responses * maximum_rtu_frame_size

pub data SerialParity : Type 0 where
  no_parity even odd : SerialParity

unfoldable pub parity_bits : SerialParity → ℕ
parity_bits no_parity = 0
parity_bits even = 1
parity_bits odd = 1

pub record PortConfig : Type 0 where
  pub baud_rate : ℕ
  pub data_bits : ℕ
  pub stop_bits : ℕ
  pub parity : SerialParity

unfoldable pub bits_per_character : PortConfig → ℕ
unfolding parity_bits
bits_per_character c = (1 + c.data_bits + parity_bits c.parity + c.stop_bits) % 2 ^ 32

-- In microseconds.
unfoldable pub character_gap : PortConfig → ℕ
character_gap c =
    let numerator = (3_500_000 * bits_per_character c) % 2 ^ 64 in
    if ltb 19_200 c.baud_rate then 1_750 else ((numerator + c.baud_rate - 1) % 2 ^ 64) / c.baud_rate

pub record Port : Type 0 where
  pub active : Bool
  pub output_queue : List (List ℕ)
  pub queued_output_bytes : ℕ
  pub writing : Bool

-- A port that has been opened.
unfoldable pub opened : Port
opened = record { active = true; output_queue = []; queued_output_bytes = 0; writing = false }

pub data Enqueued : Type 0 where
  inactive queue_full queued start_writer : Enqueued

unfoldable pub enqueue_write : Port → List ℕ → Enqueued × Port
enqueue_write p output =
    if not p.active
    then (inactive, p)
    else if leb maximum_queued_rtu_responses (length p.output_queue)
        || ltb maximum_queued_rtu_bytes ((p.queued_output_bytes + length output) % 2 ^ 64)
    then (queue_full, p)
    else (
      if p.writing then queued else start_writer,
      record p {
        output_queue = p.output_queue ++ (output ∷ []);
        queued_output_bytes = (p.queued_output_bytes + length output) % 2 ^ 64;
        writing = true;
      },
    )

unfoldable pub fetch : Port → List (List ℕ) → Option (List ℕ) × Port
fetch p [] = (none, record p { writing = false })
fetch p (output ∷ rest) = (some output, p)

-- The first block of a writer's round: the frame to write, unless the queue is empty.
unfoldable pub next_output : Port → Option (List ℕ) × Port
next_output p = fetch p p.output_queue

unfoldable pub pop_front : Port → List (List ℕ) → Port
pop_front p [] = p
pop_front p (output ∷ rest) = record p {
  output_queue = rest;
  queued_output_bytes = (p.queued_output_bytes + 2 ^ 64 - length output) % 2 ^ 64;
}

-- The second block, once the write is complete.
unfoldable pub written : Port → Port
written p = pop_front p p.output_queue

-- The handler of a write's exception, before it calls `close`.
unfoldable pub write_failed : Port → Port
write_failed p = record p { output_queue = []; writing = false }

unfoldable pub close_port : Bool → Port → Port
close_port is_open p =
    if not p.active && not is_open
    then record p { active = false }
    else record p { active = false; output_queue = []; queued_output_bytes = 0; writing = false }
