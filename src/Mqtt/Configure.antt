-- ===== src/Mqtt/Configure.antt =====
-- common/msap1/mqtt/meter_publication_scheduler.cpp: `configure`, and the events of the scheduler.
-- The catalogue of attributes and periods, and the provider, are an interface.
pub mod Newest
pub mod Drain
use msap1_apu.Prelude.{
  ℕ, zero, suc, ◌+◌, Bool, List, [], ◌∷◌, ◌++◌, Option, none, some, Result, ok, err, ◌>>=◌, ◌>>◌,
  ensure, ◌==◌, ◌||◌, false, if◌then◌else◌, length,
}
use msap1_apu.Prelude.Integers.{ℤ}
use msap1_apu.Mqtt.Scheduler.{
  PublicationSettings, Publication, Scheduler, no_statistics, timer_fired, call_ended,
  flush_pending, start, stop,
}

-- `find_attribute`, MeterPublicationCatalog::period, and the capabilities of the provider: the
-- attributes of each period.
pub record Provider : Type 0 where
  pub find_attribute : List ℕ → Option ℕ
  pub period : List ℕ → Option ℕ
  pub capabilities : List (ℕ × List ℕ)

pub data Refusal : Type 0 where
  unknown_attribute unknown_period unavailable_attribute : Refusal

abbrev contains : List ℕ → ℕ → Bool
contains [] a = false
contains (x ∷ xs) a = x == a || contains xs a

-- The capability of the period, and whether it has the attribute.
unfoldable pub supports : List (ℕ × List ℕ) → ℕ → ℕ → Bool
supports [] period attribute = false
supports ((candidate, attributes) ∷ capabilities) period attribute =
    let rest = supports capabilities period attribute in
    if candidate == period then contains attributes attribute else rest

abbrev known : {T : Type 0} → Refusal → Option T → Result Refusal T
known refusal none = err refusal
known refusal (some value) = ok value

module _ (provider : Provider) where
  unfoldable pub resolve_attributes : List ℕ → List (List ℕ) → Result Refusal (List ℕ)
  unfolding supports
  resolve_attributes period [] = ok []
  resolve_attributes period (name ∷ names) = do
    attribute ← known unknown_attribute (provider.find_attribute name)
    p ← known unknown_period (provider.period period)
    ensure (supports provider.capabilities p attribute) unavailable_attribute
    attributes ← resolve_attributes period names
    ok (attribute ∷ attributes)

  unfoldable pub new_publications : List PublicationSettings → Result Refusal (List Publication)
  unfolding resolve_attributes
  new_publications [] = ok []
  new_publications (s ∷ settings) =
      let rest = new_publications settings in
      if s.enabled
      then (do
        attributes ← resolve_attributes s.period s.attributes
        publications ← rest
        ok (
            record { settings = s; attributes = attributes; statistics = no_statistics }
            ∷ publications))
      else rest

-- The places of `count` objects from `first` on.
abbrev places : ℕ → ℕ → List ℕ
places first zero = []
places first (suc count) = first ∷ places (first + 1) count

unfoldable pub replace_publications : List Publication → Scheduler → Scheduler
replace_publications publications s = record s {
  objects = s.objects ++ publications;
  publications = places (length s.objects) (length publications);
  pending = [];
}

-- The state after `configure`, which has stopped the timers even where it throws.
unfoldable pub configure : Provider → List PublicationSettings → Scheduler → Scheduler
unfolding new_publications replace_publications stop
configure provider settings s = elim (new_publications provider settings) [
  | err refusal ↦ stop s
  | ok publications ↦ replace_publications publications (stop s)
]

pub data Event : Type 0 where
  configured : List PublicationSettings → Event
  started stopped flushed : Event
  fired : ℕ → Bool → Result (List ℕ) (ℕ × List ℕ) → Event
  ended : ℕ → Option (List ℕ) → ℤ → Event

unfoldable pub step : Provider → Scheduler → Event → Scheduler
unfolding configure timer_fired call_ended flush_pending start stop
step provider s (configured settings) = configure provider settings s
step provider s started = start s
step provider s stopped = stop s
step provider s flushed = flush_pending s
step provider s (fired h cancelled source) = timer_fired h cancelled source s
step provider s (ended i outcome now) = call_ended i outcome now s

unfoldable pub run : Provider → Scheduler → List Event → Scheduler
unfolding step
run provider s [] = s
run provider s (e ∷ events) = run provider (step provider s e) events
