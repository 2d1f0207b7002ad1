-- ===== src/Mqtt/Scheduler.antt =====
-- common/msap1/mqtt/meter_publication_scheduler.cpp: the timers that publish meter snapshots. A
-- section under the mutex is one step; `client_.publish` runs outside of it, so a call that waits
-- for the broker is part of the state, and its end is an event. Publications are shared objects,
-- named by their place in `objects`, which outlive a new configuration. The map of the pending
-- requests is a list of its entries; the order in which a flush takes them is not modelled. The
-- timer of an object may fire at any time.
pub mod Pending
use msap1_apu.Prelude.{
  ℕ, zero, suc, ◌+◌, ◌%◌, ◌^◌, Bool, true, false, not, ◌&&◌, List, [], ◌∷◌, ◌++◌, Option, none,
  some, Result, ok, err, ◌>>=◌, if◌then◌else◌, length, get_elem?,
}
use msap1_apu.Prelude.Integers.{ℤ, pos}
use msap1_apu.Settings.Texts.{equals}

pub record PublishRequest : Type 0 where
  pub publication_id : List ℕ
  pub topic : List ℕ
  pub payload : List ℕ
  pub qos : ℕ
  pub retain : Bool

pub record PublicationSettings : Type 0 where
  pub id : List ℕ
  pub enabled : Bool
  pub topic : List ℕ
  pub period : List ℕ
  pub interval_ms : ℕ
  pub qos : ℕ
  pub retain : Bool
  pub attributes : List (List ℕ)

pub record PublicationStatistics : Type 0 where
  pub attempts : ℕ
  pub successes : ℕ
  pub failures : ℕ
  pub last_source_sequence : ℕ
  pub last_successful_publish_unix_ms : ℤ
  pub last_error : List ℕ

abbrev pub no_statistics : PublicationStatistics
no_statistics = record {
  attempts = 0;
  successes = 0;
  failures = 0;
  last_source_sequence = 0;
  last_successful_publish_unix_ms = pos 0;
  last_error = [];
}

-- An attribute is the number of its key in the catalogue.
pub record Publication : Type 0 where
  pub settings : PublicationSettings
  pub attributes : List ℕ
  pub statistics : PublicationStatistics

abbrev pub PendingMap : Type 0
PendingMap = List (List ℕ × PublishRequest)

-- A call that waits for the broker: `publish_once` of an object, or what is left of a flush.
pub data Call : Type 0 where
  publishing : ℕ → PublishRequest → Call
  flushing : PendingMap → Call
  returned : Call

pub record Scheduler : Type 0 where
  pub objects : List Publication
  pub publications : List ℕ
  pub pending : PendingMap
  pub running : Bool
  pub calls : List Call

unfoldable pub find : List ℕ → PendingMap → Option PublishRequest
find id [] = none
find id ((key, request) ∷ pending) = if equals key id then some request else find id pending

unfoldable pub insert_or_assign : List ℕ → PublishRequest → PendingMap → PendingMap
insert_or_assign id request [] = (id, request) ∷ []
insert_or_assign id request ((key, other) ∷ pending) =
    let rest = insert_or_assign id request pending in
    if equals key id then (key, request) ∷ pending else (key, other) ∷ rest

-- A map has at most one entry for an id.
unfoldable pub erase_found : List ℕ → PendingMap → PendingMap
erase_found id [] = []
erase_found id ((key, request) ∷ pending) =
    let rest = erase_found id pending in if equals key id then rest else (key, request) ∷ rest

unfoldable pub erase_current : List ℕ → List ℕ → PendingMap → Option PublishRequest → PendingMap
unfolding erase_found
erase_current id payload pending none = pending
erase_current id payload pending (some request) =
    if equals request.payload payload then erase_found id pending else pending

-- Only the payload just attempted is taken out; a newer one stays.
unfoldable pub erase_if_current : List ℕ → List ℕ → PendingMap → PendingMap
unfolding find erase_current
erase_if_current id payload pending = erase_current id payload pending (find id pending)

abbrev pub update_at : {T : Type 0} → ℕ → (T → T) → List T → List T
update_at i f [] = []
update_at zero f (x ∷ xs) = f x ∷ xs
update_at (suc i) f (x ∷ xs) = x ∷ update_at i f xs

-- std::uint64_t counters wrap.
abbrev pub next : ℕ → ℕ
next n = (n + 1) % 2 ^ 64

unfoldable pub attempted : ℕ → Publication → Publication
attempted sequence p = record p {
  statistics = record p.statistics {
    attempts = next p.statistics.attempts;
    last_source_sequence = sequence;
  };
}

unfoldable pub succeeded : ℤ → Publication → Publication
succeeded now p = record p {
  statistics = record p.statistics {
    successes = next p.statistics.successes;
    last_successful_publish_unix_ms = now;
    last_error = [];
  };
}

unfoldable pub failed : List ℕ → Publication → Publication
failed what p = record p {
  statistics = record p.statistics { failures = next p.statistics.failures; last_error = what };
}

-- The first current publication with the id, if there is one.
unfoldable pub find_publication : List ℕ → List ℕ → List Publication → Option ℕ
find_publication id [] objects = none
find_publication id (h ∷ publications) objects =
    let rest = find_publication id publications objects in
    elim (get_elem? objects h) [
      | none ↦ rest
      | some p ↦ if equals p.settings.id id then some h else rest
    ]

unfoldable pub update_publication : List ℕ → (Publication → Publication) → Scheduler → Scheduler
unfolding find_publication
update_publication id f s = elim (find_publication id s.publications s.objects) [
  | none ↦ s
  | some h ↦ record s { objects = update_at h f s.objects }
]

-- The first section of `publish_once`, and the call of the client.
unfoldable pub begin_publish : ℕ → ℕ → PublishRequest → Scheduler → Scheduler
unfolding attempted insert_or_assign
begin_publish h sequence request s = record s {
  objects = update_at h (attempted sequence) s.objects;
  pending = insert_or_assign request.publication_id request s.pending;
  calls = s.calls ++ (publishing h request ∷ []);
}

abbrev pub request_of : Publication → List ℕ → PublishRequest
request_of p payload = record {
  publication_id = p.settings.id;
  topic = p.settings.topic;
  payload = payload;
  qos = p.settings.qos;
  retain = p.settings.retain;
}

-- `source` is what the provider and the encoder answer: a sequence number and a payload, or the
-- text of an exception.
unfoldable pub publish_once : ℕ → Publication → Result (List ℕ) (ℕ × List ℕ) → Scheduler → Scheduler
unfolding begin_publish failed
publish_once h p (err what) s = record s { objects = update_at h (failed what) s.objects }
publish_once h p (ok (sequence, payload)) s = begin_publish h sequence (request_of p payload) s

-- The handler of the timer: `cancelled` is its error. Its test of `running` and the section of
-- `publish_once` are taken as one step.
unfoldable pub timer_fired : ℕ → Bool → Result (List ℕ) (ℕ × List ℕ) → Scheduler → Scheduler
unfolding publish_once
timer_fired h cancelled source s =
    if not cancelled && s.running
    then (elim (get_elem? s.objects h) [ none ↦ s | some p ↦ publish_once h p source s ])
    else s

abbrev pub set_call : ℕ → Call → Scheduler → Scheduler
set_call i call s = record s { calls = update_at i (λ _. call) s.calls }

-- The end of `client_.publish` in `publish_once`: `none`, or the text of the exception.
unfoldable pub publish_ended : ℕ → PublishRequest → Option (List ℕ) → ℤ → Scheduler → Scheduler
unfolding succeeded failed erase_if_current
publish_ended h request none now s = record s {
  objects = update_at h (succeeded now) s.objects;
  pending = erase_if_current request.publication_id request.payload s.pending;
}
publish_ended h request (some what) now s = record s {
  objects = update_at h (failed what) s.objects;
}

-- The same for the first of the requests that a flush has left.
unfoldable pub flush_ended : List ℕ → PublishRequest → Option (List ℕ) → ℤ → Scheduler → Scheduler
unfolding succeeded failed update_publication erase_if_current
flush_ended id request none now s =
    update_publication id (succeeded now)
      (record s { pending = erase_if_current id request.payload s.pending })
flush_ended id request (some what) now s = update_publication id (failed what) s

unfoldable pub end_call : ℕ → Option Call → Option (List ℕ) → ℤ → Scheduler → Scheduler
unfolding publish_ended flush_ended
end_call i (some (publishing h request)) outcome now s =
    set_call i returned (publish_ended h request outcome now s)
end_call i (some (flushing ((id, request) ∷ rest))) outcome now s =
    set_call i (flushing rest) (flush_ended id request outcome now s)
end_call i _ outcome now s = s

unfoldable pub call_ended : ℕ → Option (List ℕ) → ℤ → Scheduler → Scheduler
unfolding end_call
call_ended i outcome now s = end_call i (get_elem? s.calls i) outcome now s

unfoldable pub flush_pending : Scheduler → Scheduler
flush_pending s = record s { calls = s.calls ++ (flushing s.pending ∷ []) }

unfoldable pub start : Scheduler → Scheduler
start s = record s { running = true }

unfoldable pub stop : Scheduler → Scheduler
stop s = record s { running = false }
