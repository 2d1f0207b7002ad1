-- ===== src/Modbus/Tcp/Slots.antt =====
-- common/mnc/modbus/tcp_server.cpp: `start`, `stop`, `reserve` and `release`, which decide whose
-- sessions may run. Each takes its lock once, so each is one step.
use msap1_apu.Prelude.{
  ℕ, ◌+◌, ◌%◌, ◌^◌, ◌≤◌, ◌<◌, ◌≡◌, inl, inr, refl, Bool, true, false, not, ◌||◌, ◌&&◌, List, [],
  ◌∷◌, arith, ltb, leb, ◌==◌, if◌then◌else◌, length, Bool-cases,
}

-- `unit_id`, `maximum_clients`, and whether opening, binding and listening succeed.
pub record Config : Type 0 where
  pub unit_id : ℕ
  pub maximum_clients : ℕ
  pub listens : Bool

-- `sockets` holds the identities of the sockets in the set.
pub record Server : Type 0 where
  pub running : Bool
  pub generation : ℕ
  pub sockets : List ℕ

unfoldable pub idle : Server
idle = record { running = false; generation = 0; sockets = [] }

unfoldable pub current : Server → ℕ → Bool
current s run = s.running && s.generation == run

-- What `start` does: nothing, a new run, or an exception.
pub data Started : Type 0 where
  already_running : Started
  accepting : ℕ → Started
  refused : Started

unfoldable pub start : Config → Server → Started × Server
start c s =
    let run = (s.generation + 1) % 2 ^ 64 in
    if s.running
    then (already_running, s)
    else if c.unit_id == 0 || ltb 247 c.unit_id || c.maximum_clients == 0 || not c.listens
    then (refused, record s { running = false; generation = run })
    else (accepting run, record s { running = true; generation = run })

unfoldable pub stop : Server → Server
stop s =
    if s.running
    then record s { running = false; generation = (s.generation + 1) % 2 ^ 64; sockets = [] }
    else s

unfoldable pub contains : ℕ → List ℕ → Bool
contains x [] = false
contains x (y ∷ ys) = x == y || contains x ys

-- `std::set::insert` and `std::set::erase`.
unfoldable pub insert : ℕ → List ℕ → List ℕ
insert x ys = if contains x ys then ys else x ∷ ys

unfoldable pub erase : ℕ → List ℕ → List ℕ
erase x [] = []
erase x (y ∷ ys) = let rest = erase x ys in if x == y then rest else y ∷ rest

unfoldable pub reserve : Config → Server → ℕ → ℕ → Bool × Server
reserve c s socket run =
    if not (current s run) || leb c.maximum_clients (length s.sockets)
    then (false, s)
    else (true, record s { sockets = insert socket s.sockets })

unfoldable pub release : Server → ℕ → Server
release s socket = record s { sockets = erase socket s.sockets }

pub data Event : Type 0 where
  started stopped : Event
  accepted : ℕ → ℕ → Event
  ended : ℕ → Event

unfoldable pub step : Config → Server → Event → Server
step c s started = (start c s).1
step c s stopped = stop s
step c s (accepted socket run) = (reserve c s socket run).1
step c s (ended socket) = release s socket

unfoldable pub run_events : Config → Server → List Event → Server
run_events c s [] = s
run_events c s (e ∷ es) = run_events c (step c s e) es

-- No socket stands in the set twice.
abbrev pub Distinct : List ℕ → Type 0
Distinct [] = Unit {0}
Distinct (x ∷ xs) = (contains x xs ≡ false) × Distinct xs

abbrev pub IsAdmitted : Config → Server → Type 0
IsAdmitted c s = (length s.sockets ≤ c.maximum_clients) × Distinct s.sockets

insert-Distinct : (x : ℕ) (ys : List ℕ) → Distinct ys → Distinct (insert x ys)
unfolding insert
insert-Distinct x ys d = elim (Bool-cases (contains x ys)) [ inl e ↦ rw e d | inr e ↦ rw e (e, d) ]

erase_other : (x y : ℕ) (ys : List ℕ) → contains y ys ≡ false → contains y (erase x ys) ≡ false
unfolding erase contains
erase_other x y [] e = refl
erase_other x y (z ∷ zs) e = ground (arith, erase_other x y zs)

erase-Distinct : (x : ℕ) (ys : List ℕ) → Distinct ys → Distinct (erase x ys)
unfolding erase
erase-Distinct x [] d = tt
erase-Distinct x (y ∷ ys) (fresh, d) = elim (Bool-cases (x == y)) [
  | inl e ↦ rw e (erase-Distinct x ys d)
  | inr e ↦ rw e (erase_other x y ys fresh, erase-Distinct x ys d)
]

length-erase : (x : ℕ) (ys : List ℕ) → length (erase x ys) ≤ length ys
unfolding erase
length-erase x [] = omega arith
length-erase x (y ∷ ys) = ground (arith, length-erase x ys)

length-insert : (x : ℕ) (ys : List ℕ) → length (insert x ys) ≤ length ys + 1
unfolding insert
length-insert x ys = ground arith

step-IsAdmitted : (c : Config) (s : Server) (e : Event) → IsAdmitted c s → IsAdmitted c (step c s e)
unfolding step start stop reserve release
step-IsAdmitted c s started h = ground arith
step-IsAdmitted c s stopped h = elim (Bool-cases s.running) [
  | inl e ↦ rw e (omega arith, tt)
  | inr e ↦ rw e h
]
step-IsAdmitted c s (accepted socket run) (few, d) =
    elim (Bool-cases (not (current s run) || leb c.maximum_clients (length s.sockets))) [
      | inl e ↦ rw (step, e) (few, d)
      | inr e ↦
          rw (step, e)
            (ground (arith, length-insert socket s.sockets), insert-Distinct socket s.sockets d)
    ]
step-IsAdmitted c s (ended socket) (few, d) =
    (omega (arith, length-erase socket s.sockets), erase-Distinct socket s.sockets d)

-- After any sequence of starts, stops, accepted and ended connections, the server holds at most
-- `maximum_clients` sockets, all different.
pub slots_bounded : (c : Config) (es : List Event) → IsAdmitted c (run_events c idle es)
unfolding run_events idle
slots_bounded c es = run-IsAdmitted es idle (omega arith, tt)
  where
    run-IsAdmitted :
        (es : List Event) (s : Server) → IsAdmitted c s → IsAdmitted c (run_events c s es)
    run-IsAdmitted [] s h = h
    run-IsAdmitted (e ∷ es) s h = run-IsAdmitted es (step c s e) (step-IsAdmitted c s e h)

step_generation :
    (c : Config) (s : Server) (e : Event)
    → s.generation + 1 < 2 ^ 64
    → (s.generation ≤ (step c s e).generation) × ((step c s e).generation ≤ s.generation + 1)
unfolding step start stop reserve release
step_generation c s started h = ground arith
step_generation c s stopped h = ground arith
step_generation c s (accepted socket run) h = ground arith
step_generation c s (ended socket) h = omega arith

run_generation :
    (c : Config) (es : List Event) (s : Server)
    → s.generation + length es < 2 ^ 64
    → s.generation ≤ (run_events c s es).generation
unfolding run_events
run_generation c [] s h = omega arith
run_generation c (e ∷ es) s h =
    let g = step_generation c s e (omega arith) in
    omega (arith, run_generation c es (step c s e) (omega (arith, g.1)), g.0)

started_as :
    (c : Config) (s s1 : Server) (run : ℕ)
    → start c s ≡ (accepting run, s1)
    → (run ≡ (s.generation + 1) % 2 ^ 64) × (s1.generation ≡ run) × (s1.running ≡ true)
unfolding start
started_as c s s1 run e = ground arith

stopped_generation :
    (s : Server) → s.running ≡ true → (stop s).generation ≡ (s.generation + 1) % 2 ^ 64
unfolding stop
stopped_generation s e = rw e

current_other : (s : Server) (run : ℕ) → run < s.generation → current s run ≡ false
unfolding current
current_other s run h = ground arith

-- A coroutine of a run that has been stopped reserves no slot, whatever has happened since, as
-- long as the 64-bit generation has not come round.
pub stale_run_refused :
    (c : Config) (s s1 : Server) (run socket : ℕ) (es : List Event)
    → start c s ≡ (accepting run, s1)
    → s.generation + 2 + length es < 2 ^ 64
    → reserve c (run_events c (stop s1) es) socket run ≡ (false, run_events c (stop s1) es)
unfolding reserve
stale_run_refused c s s1 run socket es e h =
    let (now, same, on) = started_as c s s1 run e in
    let halted = stopped_generation s1 on in
    let later = run_generation c es (stop s1) (omega arith) in
    rw (current_other (run_events c (stop s1) es) run (omega arith)) refl
