-- ===== src/Ipc/Queue/Order.antt =====
-- Frames go to the socket in the order in which `enqueue` admitted them.
use msap1_apu.Prelude.{
  ℕ, ◌+◌, ◌<◌, ◌^◌, ◌≡◌, refl, sym, ap, ◌∙◌, Bool, Bool-cases, true, false, not, ◌&&◌, ◌⊎◌, inl,
  inr, List, [], ◌∷◌, ◌++◌, Option, none, some, arith, length, append_assoc, append-nil,
  if◌then◌else◌,
}
use mathlib.Core.Path.{ap₂}
use msap1_apu.Ipc.Queue.{
  Limits, Connection, PendingWrite, Action, notify, start_write, close_socket, Event, enqueued,
  finished, closed, push_back, enqueue, start_next_write, complete, close, notify_all, step, run,
  connected, Status, socket_error, erase_front, has_no_room,
}
use msap1_apu.Ipc.Queue.Bounds.{IsValid, InFlight, finished_cases, step-IsValid, connected-IsValid}

abbrev pub contents : List PendingWrite → List (List ℕ)
contents [] = []
contents (w ∷ ws) = w.bytes ∷ contents ws

-- The frames that wait behind the one that is being written.
abbrev pub behind : Connection → List (List ℕ)
behind c = contents (erase_front c.writes)

-- What is handed to the socket, in order.
abbrev pub started : List Action → List (List ℕ)
started [] = []
started (notify i s ∷ acts) = started acts
started (start_write bytes ∷ acts) = bytes ∷ started acts
started (close_socket ∷ acts) = started acts

-- The frames that the connection takes: it is open and has room for them.
abbrev pub admits : Limits → Connection → Event → List (List ℕ)
admits l c (enqueued p) = if c.is_open && not (has_no_room l c p) then p.bytes ∷ [] else []
admits l c (finished error) = []
admits l c closed = []

unfoldable pub admitted : Limits → Connection → List Event → List (List ℕ)
admitted l c [] = []
admitted l c (e ∷ es) = admits l c e ++ admitted l (step l c e).0 es

started-append : (xs ys : List Action) → started (xs ++ ys) ≡ started xs ++ started ys
started-append [] ys = refl
started-append (notify i s ∷ xs) ys = started-append xs ys
started-append (start_write bs ∷ xs) ys = ap (◌∷◌ bs) (started-append xs ys)
started-append (close_socket ∷ xs) ys = started-append xs ys

started-notify_all : (s : Status) (ws : List PendingWrite) → started (notify_all s ws) ≡ []
unfolding notify_all
started-notify_all s [] = refl
started-notify_all s (w ∷ ws) = started-notify_all s ws

contents-push_back :
    (ws : List PendingWrite) (p : PendingWrite)
    → contents (push_back ws p) ≡ contents ws ++ (p.bytes ∷ [])
contents-push_back [] p = refl
contents-push_back (w ∷ ws) p = ap (◌∷◌ w.bytes) (contents-push_back ws p)

-- One step: what waited and what is admitted is what is handed over, still waits, or is dropped.
-- Only a step that closes the connection and empties its queue drops frames.
record Ordered (l : Limits) (c : Connection) (e : Event) (r : Connection × List Action)
    : Type 0 where
  dropped : List (List ℕ)
  split : behind c ++ admits l c e ≡ started r.1 ++ (behind r.0 ++ dropped)
  when : (dropped ≡ []) ⊎ ((r.0.is_open ≡ false) × (r.0.writes ≡ []))

pushed :
    (n : ℕ) (b : Bool) (o : Option PendingWrite) (ws : List PendingWrite) (p : PendingWrite)
    → InFlight b o ws
    → let r = start_next_write (record {
      is_open = true;
      writes = push_back ws p;
      queued_bytes = n;
      writing = b;
      in_flight = o;
    }) in
      contents (erase_front ws) ++ (p.bytes ∷ []) ≡ started r.1 ++ (behind r.0 ++ [])
unfolding start_next_write erase_front
pushed n true (some q) (w ∷ ws) p v = sym (append-nil _ ∙ contents-push_back ws p)
pushed n true (some q) [] p v = elim v [ ]
pushed n true none ws p v = elim v [ ]
pushed n false (some q) ws p v = elim v [ ]
pushed n false none [] p v = refl
pushed n false none (w ∷ ws) p v = cc

module _ {A : Type 0} (b a s1 b1 r s2 b2 d : List A) where
  join_open :
      b ++ a ≡ s1 ++ (b1 ++ [])
      → b1 ++ r ≡ s2 ++ (b2 ++ d)
      → b ++ (a ++ r) ≡ (s1 ++ s2) ++ (b2 ++ d)
  join_open e h =
      sym (append_assoc b a r)
      ∙ ap (λ t. t ++ r) (e ∙ ap (◌++◌ s1) (append-nil b1))
      ∙ append_assoc s1 b1 r
      ∙ ap (◌++◌ s1) h
      ∙ sym (append_assoc s1 s2 (b2 ++ d))

nil_parts : {A : Type 0} (xs ys : List A) → [] ≡ xs ++ ys → (xs ≡ []) × (ys ≡ [])
nil_parts [] ys e = (refl, sym e)
nil_parts (x ∷ xs) ys e = cc

join_shut :
    {A : Type 0} (b a s1 b1 d r s2 b2 d' : List A)
    → b ++ a ≡ s1 ++ (b1 ++ d)
    → b1 ≡ []
    → r ≡ []
    → b1 ++ r ≡ s2 ++ (b2 ++ d')
    → b ++ (a ++ r) ≡ (s1 ++ s2) ++ (b2 ++ d)
join_shut b a s1 b1 d r s2 b2 d' e f g h =
    let (no_s2, rest) = nil_parts s2 (b2 ++ d') (sym (ap₂ ◌++◌ f g) ∙ h) in
    let (no_b2, none_else) = nil_parts b2 d' (sym rest) in
    rw (g, no_s2, no_b2) (simp append-nil (e ∙ ap (λ t. s1 ++ (t ++ d)) f))

module _ (l : Limits) where
  enqueue_split :
      (is_open : Bool) (c : Connection) (p : PendingWrite)
      → c.is_open ≡ is_open
      → IsValid l c
      → behind c ++ admits l c (enqueued p)
        ≡ started (enqueue l c p).1 ++ (behind (enqueue l c p).0 ++ [])
  unfolding enqueue
  enqueue_split false c p e v = simp (e, append-nil)
  enqueue_split true c p e v = elim (Bool-cases (has_no_room l c p)) [
    | inl full ↦ simp (e, full, append-nil)
    | inr room ↦
        simp (e, room)
          (pushed (c.queued_bytes + length p.bytes) c.writing c.in_flight c.writes p v.front)
  ]

  enqueue-Ordered :
      (c : Connection) (p : PendingWrite) → IsValid l c → Ordered l c (enqueued p) (enqueue l c p)
  enqueue-Ordered c p v = record {
    dropped = [];
    split = enqueue_split c.is_open c p refl v;
    when = inl refl;
  }

  complete-Ordered :
      (c : Connection) (p : PendingWrite) (error : Option ℕ)
      → IsValid l c
      → c.in_flight ≡ some p
      → Ordered l c (finished error) (complete c p error)
  unfolding complete
  complete-Ordered c p none v e = record {
    dropped = [];
    split = ground (arith, append-nil (behind c), append-nil (behind (complete c p none).0));
    when = inl refl;
  }
  complete-Ordered c p (some code) v e = record {
    dropped = behind c;
    split = rw (append-nil, started-notify_all (socket_error code) (erase_front c.writes));
    when = inr (refl, refl);
  }

  step-Ordered : (c : Connection) (e : Event) → IsValid l c → Ordered l c e (step l c e)
  unfolding step
  step-Ordered c (enqueued p) v = enqueue-Ordered c p v
  step-Ordered c (finished error) v =
      finished_cases (Ordered l c (finished error)) l c error
        (record { dropped = []; split = refl; when = inl refl })
        (λ p busy. complete-Ordered c p error v busy)
  step-Ordered c closed v = unfold close in record { dropped = []; split = refl; when = inl refl }

  closed_stays : (c : Connection) (e : Event) → c.is_open ≡ false → (step l c e).0.is_open ≡ false
  unfolding step
  closed_stays c (enqueued p) h = unfold enqueue in ground arith
  closed_stays c (finished error) h =
      finished_cases (λ r. r.0.is_open ≡ false) l c error h
        (λ p busy. unfold complete in ground arith)
  closed_stays c closed h = unfold close in refl

  admits_closed : (c : Connection) (e : Event) → c.is_open ≡ false → admits l c e ≡ []
  admits_closed c (enqueued p) h = simp h
  admits_closed c (finished error) h = refl
  admits_closed c closed h = refl

  admitted_closed : (es : List Event) (c : Connection) → c.is_open ≡ false → admitted l c es ≡ []
  unfolding admitted
  admitted_closed [] c h = refl
  admitted_closed (e ∷ es) c h =
      rw (admits_closed c e h) (admitted_closed es (step l c e).0 (closed_stays c e h))

  -- A run from `c`: what waited and what was admitted is what was handed over, still waits, or was
  -- dropped with a connection that is closed now.
  record Run (c : Connection) (es : List Event) : Type 0 where
    dropped : List (List ℕ)
    split :
        behind c ++ admitted l c es ≡ started (run l c es).1 ++ (behind (run l c es).0 ++ dropped)
    when : (dropped ≡ []) ⊎ ((run l c es).0.is_open ≡ false)

  run_closed :
      (es : List Event) (c : Connection) → c.is_open ≡ false → (run l c es).0.is_open ≡ false
  unfolding run
  run_closed [] c h = h
  run_closed (e ∷ es) c h = run_closed es (step l c e).0 (closed_stays c e h)

  Run-ordered :
      l.max_queued_bytes < 2 ^ 64 → (es : List Event) (c : Connection) → IsValid l c → Run c es
  unfolding run admitted
  Run-ordered small [] c v = record { dropped = []; split = refl; when = inl refl }
  Run-ordered small (e ∷ es) c v =
      let c1 = (step l c e).0 in
      let first = (step l c e).1 in
      let c2 = (run l c1 es).0 in
      let o = step-Ordered c e v in
      let r = Run-ordered small es c1 (step-IsValid l small c e v) in
      elim o.when [
        | inl none_lost ↦ record {
          dropped = r.dropped;
          split = rw (started-append first (run l c1 es).1) (
              join_open (behind c) (admits l c e) (started first) (behind c1) _ _ (behind c2)
                r.dropped (o.split ∙ ap (λ d. started first ++ (behind c1 ++ d)) none_lost)
                r.split);
          when = r.when;
        }
        | inr (shut, empty) ↦ record {
          dropped = o.dropped;
          split = rw (started-append first (run l c1 es).1) (
              join_shut (behind c) (admits l c e) (started first) (behind c1) o.dropped _ _
                (behind c2) r.dropped o.split
                (ap (λ ws. contents (erase_front ws)) empty ∙ unfold erase_front in refl)
                (admitted_closed es c1 shut) r.split);
          when = inr (run_closed es c1 shut);
        }
      ]

  -- On a new connection the frames that were admitted are, in the same order, those handed to the
  -- socket, then those that wait behind the one being written, then those dropped because the
  -- connection failed; while it is open none is dropped.
  pub fifo_order :
      l.max_queued_bytes < 2 ^ 64
      → (es : List Event)
      → let (c, actions) = run l connected es in
        (dropped : List (List ℕ)) × (admitted l connected es
          ≡ started actions ++ (behind c ++ dropped))
        × ((dropped ≡ []) ⊎ (c.is_open ≡ false))
  fifo_order small es =
      let r = Run-ordered small es connected (connected-IsValid l) in
      (r.dropped, unfold connected erase_front in r.split, r.when)
