-- ===== src/Ipc/Queue.antt =====
-- common/mnc/ipc/ipc.cpp: the write queue of FramedConnection (`enqueue`, `start_next_write`,
-- `close`). All of it runs on the connection's strand, so each event is one step. The calls out of
-- the code (a `done` callback, `async_write`, closing the socket) are a list of actions.
pub mod Bounds
pub mod Callbacks
pub mod Order
use msap1_apu.Prelude.{
  ℕ, zero, suc, ◌+◌, ◌-◌, ◌%◌, ◌^◌, Bool, true, false, not, ◌||◌, List, [], ◌∷◌, ◌++◌, map, Option,
  none, some, ltb, leb, if◌then◌else◌, length,
}

pub data Status : Type 0 where
  written not_connected no_buffer_space : Status
  -- An error that the socket reports.
  socket_error : ℕ → Status

-- `done` stands for the callback of this frame.
pub record PendingWrite : Type 0 where
  pub bytes : List ℕ
  pub done : ℕ

pub data Action : Type 0 where
  notify : ℕ → Status → Action
  start_write : List ℕ → Action
  close_socket : Action

pub record Limits : Type 0 where
  pub max_queued_frames : ℕ
  pub max_queued_bytes : ℕ

-- `in_flight` is the write that the outstanding `async_write` handler holds.
pub record Connection : Type 0 where
  pub is_open : Bool
  pub writes : List PendingWrite
  pub queued_bytes : ℕ
  pub writing : Bool
  pub in_flight : Option PendingWrite

unfoldable pub connected : Connection
connected = record {
  is_open = true;
  writes = [];
  queued_bytes = 0;
  writing = false;
  in_flight = none;
}

-- std::size_t a - b.
abbrev pub sub_size : ℕ → ℕ → ℕ
sub_size a b = (a + 2 ^ 64 - b) % 2 ^ 64

abbrev push_back : List PendingWrite → PendingWrite → List PendingWrite
push_back [] p = p ∷ []
push_back (w ∷ ws) p = w ∷ push_back ws p

start_front : Connection → List PendingWrite → Connection × List Action
start_front c [] = (c, [])
start_front c (p ∷ ps) = (record c { writing = true; in_flight = some p }, start_write p.bytes ∷ [])

unfoldable pub start_next_write : Connection → Connection × List Action
unfolding start_front
start_next_write c = if c.writing then (c, []) else start_front c c.writes

unfoldable pub close : Connection → Connection × List Action
close c = (record c { is_open = false }, close_socket ∷ [])

unfoldable pub has_no_room : Limits → Connection → PendingWrite → Bool
has_no_room l c p =
    leb l.max_queued_frames (length c.writes)
    || ltb l.max_queued_bytes c.queued_bytes
    || ltb (sub_size l.max_queued_bytes c.queued_bytes) (length p.bytes)

-- The body that `enqueue` posts to the strand.
unfoldable pub enqueue : Limits → Connection → PendingWrite → Connection × List Action
unfolding start_next_write close
enqueue l c p =
    if not c.is_open
    then (c, notify p.done not_connected ∷ [])
    else if has_no_room l c p
    then (let (c', closed) = close c in (c', notify p.done no_buffer_space ∷ closed))
    else start_next_write
        (record c { queued_bytes = c.queued_bytes + length p.bytes; writes = push_back c.writes p })

unfoldable pub erase_front : List PendingWrite → List PendingWrite
erase_front [] = []
erase_front (w ∷ ws) = ws

unfoldable pub notify_all : Status → List PendingWrite → List Action
notify_all s [] = []
notify_all s (w ∷ ws) = notify w.done s ∷ notify_all s ws

-- The completion handler of `async_write`: `none` is success.
unfoldable pub complete : Connection → PendingWrite → Option ℕ → Connection × List Action
unfolding start_next_write close erase_front notify_all
complete c p error =
    let c1 = record c {
      queued_bytes = sub_size c.queued_bytes (length p.bytes);
      writes = erase_front c.writes;
      writing = false;
      in_flight = none;
    } in
    elim error [
      | none ↦ (let (c2, started) = start_next_write c1 in (c2, notify p.done written ∷ started))
      | some code ↦
          (let (c2, closed) = close c1 in
            (
              record c2 { writes = []; queued_bytes = 0 },
              notify p.done (socket_error code)
                  ∷ (closed ++ notify_all (socket_error code) c1.writes),
            ))
    ]

-- What happens on the strand: a frame is enqueued, the outstanding write ends, or the owner closes.
pub data Event : Type 0 where
  enqueued : PendingWrite → Event
  finished : Option ℕ → Event
  closed : Event

-- A write can only end while one is outstanding.
finish : Connection → Option PendingWrite → Option ℕ → Connection × List Action
finish c none error = (c, [])
finish c (some p) error = complete c p error

unfoldable pub step : Limits → Connection → Event → Connection × List Action
unfolding finish
step l c (enqueued p) = enqueue l c p
step l c (finished error) = finish c c.in_flight error
step l c closed = close c

unfoldable pub run : Limits → Connection → List Event → Connection × List Action
run l c [] = (c, [])
run l c (e ∷ es) =
    let (c1, first) = step l c e in let (c2, later) = run l c1 es in (c2, first ++ later)
