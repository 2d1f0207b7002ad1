-- ===== src/Modbus/Rtu/Port/Bounds.antt =====
-- The bounds of a serial port's output queue and of its silent interval.
use msap1_apu.Prelude.{
  ℕ, ◌+◌, ◌-◌, ◌*◌, ◌/◌, ◌%◌, ◌^◌, ◌≤◌, ◌<◌, ◌≡◌, refl, ap, Bool, List, [], ◌∷◌, ◌++◌, arith,
  length, length-append, All, le→ltb,
}
use native.Mathlib.Nat.{div-add-mod', mod-lt}
use msap1_apu.Modbus.Rtu.Port.{
  SerialParity, no_parity, even, odd, parity_bits, PortConfig, bits_per_character, character_gap,
  Port, opened, enqueue_write, next_output, fetch, written, pop_front, write_failed, close_port,
  maximum_queued_rtu_responses, maximum_queued_rtu_bytes,
}

-- The steps of all threads in any order; `closing` says whether the serial port was still open.
pub data Event : Type 0 where
  response : List ℕ → Event
  fetching completing failing : Event
  closing : Bool → Event

unfoldable pub step : Port → Event → Port
step p (response output) = (enqueue_write p output).1
step p fetching = (next_output p).1
step p completing = written p
step p failing = write_failed p
step p (closing is_open) = close_port is_open p

unfoldable pub run : Port → List Event → Port
run p [] = p
run p (e ∷ es) = run (step p e) es

abbrev pub total : List (List ℕ) → ℕ
total [] = 0
total (f ∷ fs) = length f + total fs

-- The queue's length, and the byte count: no less than the queue's size, and within its limit.
abbrev pub IsBounded : Port → Type 0
IsBounded p =
    (length p.output_queue ≤ maximum_queued_rtu_responses)
    × (total p.output_queue ≤ p.queued_output_bytes)
    × (p.queued_output_bytes ≤ maximum_queued_rtu_bytes)

total-append : (fs : List (List ℕ)) (f : List ℕ) → total (fs ++ (f ∷ [])) ≡ total fs + length f
total-append [] f = omega arith
total-append (g ∷ fs) f = omega (arith, total-append fs f)

enqueue_write-IsBounded :
    (p : Port) (output : List ℕ)
    → length output < 2 ^ 32
    → IsBounded p
    → IsBounded (enqueue_write p output).1
unfolding enqueue_write
enqueue_write-IsBounded p output fits (few, covered, small) =
    ground (arith, total-append p.output_queue output, length-append p.output_queue (output ∷ []))

pop_front-IsBounded :
    (p : Port) (queue : List (List ℕ))
    → p.output_queue ≡ queue
    → IsBounded p
    → IsBounded (pop_front p queue)
unfolding pop_front
pop_front-IsBounded p [] e h = h
pop_front-IsBounded p (f ∷ fs) e h = omega (arith, ap total e, ap length e)

fetch-IsBounded : (p : Port) (queue : List (List ℕ)) → IsBounded p → IsBounded (fetch p queue).1
unfolding fetch
fetch-IsBounded p [] h = h
fetch-IsBounded p (f ∷ fs) h = h

close_port-IsBounded : (is_open : Bool) (p : Port) → IsBounded p → IsBounded (close_port is_open p)
unfolding close_port
close_port-IsBounded is_open p h = ground arith

-- Every response is shorter than 2^32 bytes.
abbrev pub IsEvent : Event → Type 0
IsEvent (response output) = length output < 2 ^ 32
IsEvent fetching = Unit {0}
IsEvent completing = Unit {0}
IsEvent failing = Unit {0}
IsEvent (closing is_open) = Unit {0}

step-IsBounded : (p : Port) (e : Event) → IsEvent e → IsBounded p → IsBounded (step p e)
unfolding step write_failed next_output written
step-IsBounded p (response output) fits h = enqueue_write-IsBounded p output fits h
step-IsBounded p fetching fits h = fetch-IsBounded p p.output_queue h
step-IsBounded p completing fits h = pop_front-IsBounded p p.output_queue refl h
step-IsBounded p failing fits h = omega arith
step-IsBounded p (closing is_open) fits h = close_port-IsBounded is_open p h

-- However the steps of the request handler, the writers and `close` are interleaved, the queue of a
-- port holds at most 64 responses, and its byte count is at most 16384 and never below the size of
-- what is queued, so that no subtraction from it wraps around.
pub output-IsBounded : (es : List Event) → All IsEvent es → IsBounded (run opened es)
unfolding run opened
output-IsBounded es h = run-IsBounded es opened h (omega arith)
  where
    run-IsBounded :
        (es : List Event) (p : Port) → All IsEvent es → IsBounded p → IsBounded (run p es)
    run-IsBounded [] p h b = b
    run-IsBounded (e ∷ es) p (he, h) b = run-IsBounded es (step p e) h (step-IsBounded p e he b)

-- The fields of the C++ record.
pub record IsConfig (c : PortConfig) : Type 0 where
  pub baud_fits : c.baud_rate < 2 ^ 32
  pub baud_set : 1 ≤ c.baud_rate
  pub data_fits : c.data_bits < 2 ^ 8
  pub stop_fits : c.stop_bits < 2 ^ 8

parity_small : (parity : SerialParity) → parity_bits parity ≤ 1
unfolding parity_bits
parity_small no_parity = omega arith
parity_small even = omega arith
parity_small odd = omega arith

bits_small : (c : PortConfig) → IsConfig c → bits_per_character c ≤ 512
unfolding bits_per_character
bits_small c h = omega (arith, parity_small c.parity)

-- A quotient rounded up.
round_up : (n d : ℕ) → 1 ≤ d → (n ≤ (n + d - 1) / d * d) × ((n + d - 1) / d * d < n + d)
round_up n d h = omega (arith, div-add-mod' (n + d - 1) d, mod-lt (n + d - 1) h)

-- Up to 19200 baud the silent interval is the time of three and a half characters, rounded up to
-- the next microsecond; no arithmetic wraps around.
character_gap_tight :
    (c : PortConfig)
    → IsConfig c
    → c.baud_rate ≤ 19_200
    → (3_500_000 * bits_per_character c ≤ character_gap c * c.baud_rate)
      × (character_gap c * c.baud_rate < 3_500_000 * bits_per_character c + c.baud_rate)
unfolding character_gap
character_gap_tight c h slow =
    let few = bits_small c h in
    let work = 3_500_000 * bits_per_character c in
    let wide : work % 2 ^ 64 ≡ work = omega arith in
    let sum : (work + c.baud_rate - 1) % 2 ^ 64 ≡ work + c.baud_rate - 1 =
      omega (arith, h.baud_fits) in
    rw (le→ltb 19_200 c.baud_rate slow, wide, sum) (round_up work c.baud_rate h.baud_set)
