-- ===== src/Modbus/Rtu/Examples.antt =====
-- A serial port on a concrete interleaving.
use msap1_apu.Prelude.{true, List, [], ◌∷◌, All, arith}
use msap1_apu.Modbus.Rtu.Port.{opened}
use msap1_apu.Modbus.Rtu.Port.Bounds.{
  Event, response, fetching, completing, failing, closing, run, IsEvent, IsBounded,
  output-IsBounded,
}

-- A write fails while another response arrives.
abbrev mixed : List Event
mixed =
    response (1 ∷ 2 ∷ [])
    ∷ fetching
    ∷ response (3 ∷ [])
    ∷ completing
    ∷ fetching
    ∷ failing
    ∷ response (4 ∷ [])
    ∷ closing true
    ∷ completing
    ∷ []

mixed-IsEvent : All IsEvent mixed
mixed-IsEvent = (omega arith, (tt, (omega arith, (tt, (tt, (tt, (omega arith, (tt, (tt, tt)))))))))

output-IsBounded_example : IsBounded (run opened mixed)
output-IsBounded_example = output-IsBounded mixed mixed-IsEvent
