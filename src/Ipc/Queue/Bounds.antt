-- ===== src/Ipc/Queue/Bounds.antt =====
-- The queue never exceeds the connection's limits, and its byte count is what it holds.
use msap1_apu.Prelude.{
  ℕ, ◌+◌, ◌≤◌, ◌<◌, ◌^◌, ◌≡◌, refl, Bool, true, false, List, [], ◌∷◌, Option, none, some, arith,
  length,
}
use msap1_apu.Ipc.Queue.{
  Limits, Action, finish, PendingWrite, Connection, Event, enqueued, finished, closed, push_back,
  enqueue, complete, step, run, connected, close, has_no_room,
}

abbrev pub total : List PendingWrite → ℕ
total [] = 0
total (w ∷ ws) = length w.bytes + total ws

-- The outstanding write is the front of the queue, and there is one exactly while `writing` says so.
abbrev pub InFlight : Bool → Option PendingWrite → List PendingWrite → Type 0
InFlight true (some p) (w ∷ ws) = w ≡ p
InFlight true (some p) [] = ⊥
InFlight true none ws = ⊥
InFlight false (some p) ws = ⊥
InFlight false none ws = ws ≡ []

pub record IsValid (l : Limits) (c : Connection) : Type 0 where
  pub counted : c.queued_bytes ≡ total c.writes
  pub bytes_bounded : c.queued_bytes ≤ l.max_queued_bytes
  pub frames_bounded : length c.writes ≤ l.max_queued_frames
  pub front : InFlight c.writing c.in_flight c.writes

total-push_back :
    (ws : List PendingWrite) (p : PendingWrite) → total (push_back ws p) ≡ total ws + length p.bytes
total-push_back [] p = omega arith
total-push_back (w ∷ ws) p = omega (arith, total-push_back ws p)

length-push_back :
    (ws : List PendingWrite) (p : PendingWrite) → length (push_back ws p) ≡ length ws + 1
length-push_back [] p = omega arith
length-push_back (w ∷ ws) p = omega (arith, length-push_back ws p)

pub connected-IsValid : (l : Limits) → IsValid l connected
unfolding connected
connected-IsValid l = record {
  counted = refl;
  bytes_bounded = omega arith;
  frames_bounded = omega arith;
  front = refl;
}

-- The end of a write, if there is one outstanding.
pub finished_cases {ℓ} :
    (P : Connection × List Action → Type ℓ) (l : Limits) (c : Connection) (error : Option ℕ)
    → P (c, [])
    → ((p : PendingWrite) → c.in_flight ≡ some p → P (complete c p error))
    → P (step l c (finished error))
unfolding step
finished_cases P l c error idle busy = go c.in_flight refl
  where
    go : (o : Option PendingWrite) → c.in_flight ≡ o → P (finish c o error)
    go none e = idle
    go (some p) e = busy p e

module _ (l : Limits) (small : l.max_queued_bytes < 2 ^ 64) where
  enqueue-IsValid : (c : Connection) (p : PendingWrite) → IsValid l c → IsValid l (enqueue l c p).0
  unfolding enqueue has_no_room
  enqueue-IsValid c p v = ground (arith, total-push_back c.writes p, length-push_back c.writes p)

  complete-IsValid :
      (c : Connection) (p : PendingWrite) (error : Option ℕ)
      → c.in_flight ≡ some p
      → IsValid l c
      → IsValid l (complete c p error).0
  unfolding complete
  complete-IsValid c p error e v = ground arith

  pub step-IsValid : (c : Connection) (e : Event) → IsValid l c → IsValid l (step l c e).0
  unfolding step
  step-IsValid c (enqueued p) v = enqueue-IsValid c p v
  step-IsValid c (finished error) v =
      finished_cases (λ r. IsValid l r.0) l c error v (λ p busy. complete-IsValid c p error busy v)
  step-IsValid c closed v = unfold close in ground arith

  run-IsValid : (es : List Event) (c : Connection) → IsValid l c → IsValid l (run l c es).0
  unfolding run
  run-IsValid [] c v = v
  run-IsValid (e ∷ es) c v = run-IsValid es (step l c e).0 (step-IsValid c e v)

  -- After any sequence of events the queue of a connection is within both of its limits, its byte
  -- count is the size of what it holds, and one write is outstanding exactly while it holds frames.
  pub queue_bounded : (es : List Event) → IsValid l (run l connected es).0
  queue_bounded es = run-IsValid es connected (connected-IsValid l)
