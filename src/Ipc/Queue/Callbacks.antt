-- ===== src/Ipc/Queue/Callbacks.antt =====
-- Each frame's callback is called once, and frames go to the socket in the order of `enqueue`.
use msap1_apu.Prelude.{
  ℕ, ◌+◌, ◌<◌, ◌^◌, ◌≡◌, refl, ap, List, [], ◌∷◌, ◌++◌, Option, none, some, arith, count,
  count-append,
}
use msap1_apu.Ipc.Queue.{
  has_no_room, Limits, Connection, PendingWrite, Action, notify, start_write, close_socket, Event,
  enqueued, finished, closed, push_back, enqueue, complete, close, notify_all, step, run, connected,
  Status, socket_error, erase_front,
}
use msap1_apu.Ipc.Queue.Bounds.{finished_cases, IsValid, step-IsValid, connected-IsValid}

abbrev pub waiting : List PendingWrite → List ℕ
waiting [] = []
waiting (w ∷ ws) = w.done ∷ waiting ws

-- The callbacks that are called, with the frames whose sending is asked for.
abbrev pub notified : List Action → List ℕ
notified [] = []
notified (notify i s ∷ acts) = i ∷ notified acts
notified (start_write bs ∷ acts) = notified acts
notified (close_socket ∷ acts) = notified acts

abbrev pub requested : List Event → List ℕ
requested [] = []
requested (enqueued p ∷ es) = p.done ∷ requested es
requested (finished error ∷ es) = requested es
requested (closed ∷ es) = requested es

notified-append : (xs ys : List Action) → notified (xs ++ ys) ≡ notified xs ++ notified ys
notified-append [] ys = refl
notified-append (notify i s ∷ xs) ys = ap (◌∷◌ i) (notified-append xs ys)
notified-append (start_write bs ∷ xs) ys = notified-append xs ys
notified-append (close_socket ∷ xs) ys = notified-append xs ys

notified-notify_all :
    (s : Status) (ws : List PendingWrite) → notified (notify_all s ws) ≡ waiting ws
unfolding notify_all
notified-notify_all s [] = refl
notified-notify_all s (w ∷ ws) = ap (◌∷◌ w.done) (notified-notify_all s ws)

count-push_back :
    (i : ℕ) (ws : List PendingWrite) (p : PendingWrite)
    → count i (waiting (push_back ws p)) ≡ count i (waiting ws) + count i (p.done ∷ [])
count-push_back i [] p = omega arith
count-push_back i (w ∷ ws) p = ground (arith, count-push_back i ws p)

module _ (l : Limits) (i : ℕ) where
  abbrev Balanced : Connection → List Event → Connection × List Action → Type 0
  Balanced c es (c', acts) =
      count i (notified acts) + count i (waiting c'.writes)
      ≡ count i (waiting c.writes) + count i (requested es)

  enqueue-Balanced :
      (c : Connection) (p : PendingWrite) → Balanced c (enqueued p ∷ []) (enqueue l c p)
  unfolding enqueue has_no_room
  enqueue-Balanced c p = ground (arith, count-push_back i c.writes p)

  complete-Balanced :
      (c : Connection) (p : PendingWrite) (error : Option ℕ)
      → IsValid l c
      → c.in_flight ≡ some p
      → Balanced c (finished error ∷ []) (complete c p error)
  unfolding complete
  complete-Balanced c p none v e = ground arith
  complete-Balanced c p (some code) v e =
      ground (arith, notified-notify_all (socket_error code) (erase_front c.writes))

  step-Balanced : (c : Connection) (e : Event) → IsValid l c → Balanced c (e ∷ []) (step l c e)
  unfolding step
  step-Balanced c (enqueued p) v = enqueue-Balanced c p
  step-Balanced c (finished error) v =
      finished_cases (Balanced c (finished error ∷ [])) l c error (omega arith)
        (λ p busy. complete-Balanced c p error v busy)
  step-Balanced c closed v = unfold close in omega arith

  requested_cons :
      (e : Event) (es : List Event)
      → count i (requested (e ∷ es)) ≡ count i (requested (e ∷ [])) + count i (requested es)
  requested_cons (enqueued p) es = ground arith
  requested_cons (finished error) es = omega arith
  requested_cons closed es = omega arith

  run-Balanced :
      l.max_queued_bytes < 2 ^ 64
      → (es : List Event) (c : Connection) → IsValid l c
      → Balanced c es (run l c es)
  unfolding run
  run-Balanced small [] c v = omega arith
  run-Balanced small (e ∷ es) c v =
      let c1 = (step l c e).0 in
      omega (
        arith,
        step-Balanced c e v,
        run-Balanced small es c1 (step-IsValid l small c e v),
        ap (count i) (notified-append (step l c e).1 (run l c1 es).1),
        count-append i (notified (step l c e).1) (notified (run l c1 es).1),
        requested_cons e es,
      )

  -- After any sequence of events each request to send has had its callback called, or still waits
  -- in the queue: as often in all as it was made.
  pub callbacks_balanced :
      l.max_queued_bytes < 2 ^ 64
      → (es : List Event)
      → let (c, actions) = run l connected es in
        count i (notified actions) + count i (waiting c.writes) ≡ count i (requested es)
  callbacks_balanced small es =
      omega (arith, run-Balanced small es connected (connected-IsValid l), fresh)
    where
      fresh : count i (waiting connected.writes) ≡ 0
      fresh = unfold connected in refl
