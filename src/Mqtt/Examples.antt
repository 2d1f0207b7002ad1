-- ===== src/Mqtt/Examples.antt =====
-- Runs of the publication scheduler on small inputs.
use msap1_apu.Prelude.{
  ◌≡◌, refl, true, false, List, [], ◌∷◌, none, some, ok, if◌then◌else◌, replicate, length,
}
use msap1_apu.Prelude.Integers.{pos}
use msap1_apu.Settings.Texts.{equals}
use msap1_apu.Mqtt.Scheduler.{
  Scheduler, PublicationSettings, Publication, find, request_of, no_statistics,
}
use msap1_apu.Mqtt.Configure.{
  Provider, Event, configured, started, flushed, fired, ended, step, run,
}
use msap1_apu.Mqtt.Configure.Newest.{newest_kept, delivered, quiet}
use msap1_apu.Mqtt.Configure.Drain.{flush_drains}

abbrev provider : Provider
provider = record {
  find_attribute = λ name. some 1;
  period = λ name. some 1;
  capabilities = (1, 1 ∷ []) ∷ [];
}

abbrev settings : PublicationSettings
settings = record {
  id = 97 ∷ [];
  enabled = true;
  topic = 116 ∷ [];
  period = 98 ∷ [];
  interval_ms = 1000;
  qos = 1;
  retain = false;
  attributes = (118 ∷ []) ∷ [];
}

abbrev publication : Publication
publication = record { settings = settings; attributes = 1 ∷ []; statistics = no_statistics }

abbrev idle : Scheduler
idle = record { objects = []; publications = []; pending = []; running = false; calls = [] }

-- The scheduler after a first configuration and its start.
abbrev ready : Scheduler
ready = record {
  objects = publication ∷ [];
  publications = 0 ∷ [];
  pending = [];
  running = true;
  calls = [];
}

configured_ready : run provider idle (configured (settings ∷ []) ∷ started ∷ []) ≡ ready
unfolding run
configured_ready = refl

-- The broker refuses the request, and takes it from the flush that follows.
abbrev events : List Event
events = ended 0 (some (101 ∷ [])) (pos 0) ∷ flushed ∷ ended 1 none (pos 5) ∷ []

abbrev tick : Event
tick = fired 0 false (ok (7, 1 ∷ 2 ∷ []))

newest_kept_example : find (97 ∷ []) (run provider ready (tick ∷ events)).pending ≡ (
    if delivered provider (97 ∷ []) (1 ∷ 2 ∷ []) (step provider ready tick) events
    then none
    else some (request_of publication (1 ∷ 2 ∷ [])))
unfolding quiet step
newest_kept_example = newest_kept provider ready 0 publication 7 (1 ∷ 2 ∷ []) events refl refl refl

was_delivered : delivered provider (97 ∷ []) (1 ∷ 2 ∷ []) (step provider ready tick) events ≡ true
unfolding delivered step equals
was_delivered = refl

abbrev waiting : Scheduler
waiting = record ready {
  pending =
      (97 ∷ [], request_of publication (1 ∷ [])) ∷ (98 ∷ [], request_of publication (2 ∷ [])) ∷ [];
}

flush_drains_example :
    find
      (98 ∷ [])
      (run provider waiting (
        flushed
        ∷ replicate (length waiting.pending) (ended (length waiting.calls) none (pos 9)))).pending
    ≡ none
flush_drains_example = flush_drains provider waiting (pos 9) (98 ∷ [])
