-- ===== src/Modbus/Tcp/Examples.antt =====
-- Modbus over TCP on a concrete socket and a concrete bank.
use msap1_apu.Prelude.{
  ℕ, zero, suc, ◌+◌, ◌%◌, ◌^◌, ◌≡◌, inr, refl, false, List, [], ◌∷◌, ◌++◌, Option, none, some,
  arith, ltb, if◌then◌else◌, length, take, drop, take-append_exact, drop-append_exact,
  length-append, le→ltb, All, replicate, true,
}
use msap1_apu.Modbus.Encoding.{IsWord}
use msap1_apu.Modbus.Handler.{no_exception, RegisterBank}
use msap1_apu.Modbus.Handler.Requests.{read_registers, write_one, HasWords}
use msap1_apu.Modbus.Tcp.{TcpSocket, session, stopped}
use msap1_apu.Modbus.Tcp.Sessions.{Query, IsQuery, query_bytes, replies, session_served}
use msap1_apu.Modbus.Tcp.Slots.{
  Config, Server, idle, Event, started, stopped, accepted, ended, start, stop, reserve, run_events,
  IsAdmitted, slots_bounded, stale_run_refused,
}

-- What is still to arrive, and what has been sent.
abbrev Wire : Type 0
Wire = List ℕ × List ℕ

abbrev wire_read : ℕ → Wire → Option (List ℕ × Wire)
wire_read n (arriving, sent) =
    if ltb (length arriving) n then none else some (take n arriving, (drop n arriving, sent))

wire_read_lem :
    (w : Wire) (bytes rest : List ℕ)
    → Unit {0}
    → w.0 ≡ bytes ++ rest
    → (t : Wire) × (wire_read (length bytes) w ≡ some (bytes, t))
      × (t.0 ≡ rest)
      × (t.1 ≡ w.1)
      × Unit {0}
wire_read_lem (arriving, sent) bytes rest live e =
    let long : length (bytes ++ rest) ≡ length bytes + length rest = length-append bytes rest in
    (
      (rest, sent),
      rw (
        e,
        le→ltb (length (bytes ++ rest)) (length bytes) (omega arith),
        take-append_exact (length bytes) bytes rest refl,
        drop-append_exact (length bytes) bytes rest refl,
      ),
      refl,
      refl,
      tt,
    )

abbrev wire_write : List ℕ → Wire → Option Wire
wire_write bytes (arriving, sent) = some (arriving, sent ++ bytes)

abbrev wire : TcpSocket
wire = record {
  State = Wire;
  async_read = wire_read;
  async_write = wire_write;
  arriving = λ w. w.0;
  sent = λ w. w.1;
  IsConnected = λ w. Unit {0};
  async_read_exact = wire_read_lem;
  async_write_exact = λ w bytes live. ((w.0, w.1 ++ bytes), refl, refl, refl, tt);
}

-- A bank of one number, which every register shows and every write sets.
abbrev cell : RegisterBank
cell = record {
  State = ℕ;
  read = λ s f a c. record { exception = no_exception; values = replicate c (s % 2 ^ 16) };
  write_single = λ s a v. (no_exception, v);
  write_multiple = λ s a vs. (no_exception, s);
}

All-replicate : (n v : ℕ) → IsWord v → All IsWord (replicate n v)
All-replicate zero v h = tt
All-replicate (suc n) v h = (h, All-replicate n v h)

cell-HasWords : HasWords cell
cell-HasWords s f a c = All-replicate c (s % 2 ^ 16) (omega arith)

abbrev write_then_read : List Query
write_then_read =
    record { transaction = 7; unit = 1; command = write_one 0 300 }
    ∷ record { transaction = 8; unit = 1; command = read_registers 0x04 0 2 }
    ∷ []

write_then_read-IsQuery : All IsQuery write_then_read
write_then_read-IsQuery = (
  record { transaction_fits = omega arith; valid = (omega arith, omega arith) },
  (
    record {
      transaction_fits = omega arith;
      valid = (inr refl, omega arith, omega arith, omega arith);
    },
    tt,
  ),
)

session_served_example :
    (t : Wire) × (session wire cell 2 1 5 (query_bytes write_then_read, [])
      ≡ stopped (replies wire cell 1 5 write_then_read).1 t)
    × (t.0 ≡ [])
    × (t.1 ≡ [] ++ (replies wire cell 1 5 write_then_read).0)
session_served_example =
    session_served wire cell 1 write_then_read 5 (query_bytes write_then_read, []) [] cell-HasWords
      write_then_read-IsQuery (omega arith) (omega arith) tt refl

abbrev two_clients : Config
two_clients = record { unit_id = 1; maximum_clients = 2; listens = true }

abbrev crowd : List Event
crowd = started ∷ accepted 10 1 ∷ accepted 11 1 ∷ accepted 12 1 ∷ ended 10 ∷ accepted 12 1 ∷ []

slots_bounded_example : IsAdmitted two_clients (run_events two_clients idle crowd)
slots_bounded_example = slots_bounded two_clients crowd

abbrev first_run : Server
first_run = record { running = true; generation = 1; sockets = [] }

-- A restart, after which the accept of the first run completes.
stale_run_refused_example :
    let s = run_events two_clients (stop first_run) (started ∷ []) in
    reserve two_clients s 10 1 ≡ (false, s)
unfolding idle
stale_run_refused_example =
    stale_run_refused two_clients idle first_run 1 10 (started ∷ []) (unfold start idle in refl)
      (omega arith)
