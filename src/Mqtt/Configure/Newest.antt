-- ===== src/Mqtt/Configure/Newest.antt =====
-- The newest request for an id waits until its payload has been published.
use msap1_apu.Prelude.{
  ℕ, ◌≡◌, refl, sym, ap, ◌∙◌, Bool, true, false, not, ◌&&◌, ◌||◌, List, [], ◌∷◌, Option, none, some,
  ok, err, if◌then◌else◌, get_elem?, subst,
}
use msap1_apu.Prelude.Integers.{ℤ}
use msap1_apu.Settings.Texts.{equals, equals_sound}
use msap1_apu.Mqtt.Scheduler.{
  PublishRequest, Publication, Scheduler, update_at, succeeded, failed, Call, publishing, flushing,
  returned, find, timer_fired, publish_once, begin_publish, request_of, end_call, publish_ended,
  flush_ended, erase_if_current, update_publication, find_publication, PendingMap,
}
use msap1_apu.Mqtt.Scheduler.Pending.{
  find-insert_or_assign, find-insert_or_assign_other, find-erase_if_current,
  find-erase_if_current_other, left_of,
}
use msap1_apu.Mqtt.Configure.{
  Provider, Event, configured, started, stopped, flushed, fired, ended, step, run,
}

abbrev of_id : List ℕ → List ℕ → List ℕ → Option (List ℕ)
of_id id key payload = if equals key id then some payload else none

abbrev of_call : List ℕ → Option Call → Option (List ℕ)
of_call id (some (publishing h r)) = of_id id r.publication_id r.payload
of_call id (some (flushing ((key, r) ∷ rest))) = of_id id key r.payload
of_call id _ = none

-- The payload that the broker has taken for an id, when the event is the success of its call.
abbrev pub taken : List ℕ → Scheduler → Event → Option (List ℕ)
taken id s (ended i none now) = of_call id (get_elem? s.calls i)
taken id s _ = none

abbrev pub is_payload : List ℕ → Option (List ℕ) → Bool
is_payload payload none = false
is_payload payload (some q) = equals payload q

not-true : (b : Bool) → not b ≡ true → b ≡ false
not-true true h = sym h
not-true false h = refl

both : (a b : Bool) → (a && b) ≡ true → (a ≡ true) × (b ≡ true)
both true b h = (refl, h)
both false b h = cc

module _ (provider : Provider) where
  -- Whether the broker takes the payload during the events.
  unfoldable pub delivered : List ℕ → List ℕ → Scheduler → List Event → Bool
  delivered id payload s [] = false
  delivered id payload s (e ∷ es) =
      let later = delivered id payload (step provider s e) es in
      is_payload payload (taken id s e) || later

  abbrev stores_for : List ℕ → Bool → Option Publication → Bool
  stores_for id due none = false
  stores_for id due (some p) = due && equals p.settings.id id

  -- Whether the event stores no newer request for the id, and is no new configuration.
  abbrev pub is_quiet : List ℕ → Scheduler → Event → Bool
  is_quiet id s (configured settings) = false
  is_quiet id s (fired h cancelled (ok answer)) =
      not (stores_for id (not cancelled && s.running) (get_elem? s.objects h))
  is_quiet id s _ = true

  unfoldable pub quiet : List ℕ → Scheduler → List Event → Bool
  quiet id s [] = true
  quiet id s (e ∷ es) = let later = quiet id (step provider s e) es in is_quiet id s e && later

  abbrev left : Option (List ℕ) → Option PublishRequest → Option PublishRequest
  left none o = o
  left (some payload) o = left_of payload o

  pending_of_update :
      (id : List ℕ) (f : Publication → Publication) (s : Scheduler)
      → (update_publication id f s).pending ≡ s.pending
  unfolding update_publication
  pending_of_update id f s = go (find_publication id s.publications s.objects)
    where
      go :
          (o : Option ℕ)
          → (elim o as (λ _. Scheduler) [
            | none ↦ s
            | some h ↦ record s { objects = update_at h f s.objects }
          ]).pending
            ≡ s.pending
      go none = refl
      go (some h) = refl

  erased :
      (id key payload : List ℕ) (m : PendingMap)
      → find id (erase_if_current key payload m) ≡ left (of_id id key payload) (find id m)
  erased id key payload m = go (equals key id) refl
    where
      go :
          (b : Bool)
          → equals key id ≡ b
          → find id (erase_if_current key payload m)
            ≡ left (if b then some payload else none) (find id m)
      go true e =
          subst (λ k. find id (erase_if_current k payload m) ≡ left_of payload (find id m))
            (sym (equals_sound key id e)) (find-erase_if_current id payload m)
      go false e = find-erase_if_current_other id key payload m e

  call_step :
      (id : List ℕ) (i : ℕ) (o : Option Call) (outcome : Option (List ℕ)) (now : ℤ) (s : Scheduler)
      → get_elem? s.calls i ≡ o
      → find id (end_call i o outcome now s).pending
        ≡ left (taken id s (ended i outcome now)) (find id s.pending)
  unfolding end_call publish_ended flush_ended
  call_step id i (some (publishing h r)) (some what) now s e = refl
  call_step id i (some (flushing ((key, r) ∷ rest))) (some what) now s e =
      ap (find id) (pending_of_update key (failed what) s)
  call_step id i none (some what) now s e = refl
  call_step id i (some (flushing [])) (some what) now s e = refl
  call_step id i (some returned) (some what) now s e = refl
  call_step id i (some (publishing h r)) none now s e =
      rw e (erased id r.publication_id r.payload s.pending)
  call_step id i (some (flushing ((key, r) ∷ rest))) none now s e = rw e (
      ap (find id) (
        pending_of_update key (succeeded now)
          (record s { pending = erase_if_current key r.payload s.pending }))
      ∙ erased id key r.payload s.pending)
  call_step id i none none now s e = rw e refl
  call_step id i (some (flushing [])) none now s e = rw e refl
  call_step id i (some returned) none now s e = rw e refl

  fired_step :
      (id : List ℕ) (h : ℕ) (cancelled : Bool) (answer : ℕ × List ℕ) (s : Scheduler)
      → is_quiet id s (fired h cancelled (ok answer)) ≡ true
      → find id (timer_fired h cancelled (ok answer) s).pending ≡ find id s.pending
  unfolding timer_fired publish_once begin_publish
  fired_step id h cancelled answer s = go (not cancelled && s.running) (get_elem? s.objects h)
    where
      go :
          (due : Bool) (o : Option Publication)
          → not (stores_for id due o) ≡ true
          → find id
              (if due
                then (elim o as (λ _. Scheduler) [
                  | none ↦ s
                  | some p ↦ publish_once h p (ok answer) s
                ])
                else s).pending
            ≡ find id s.pending
      go false o q = refl
      go true none q = refl
      go true (some p) q =
          find-insert_or_assign_other id p.settings.id (request_of p answer.1) s.pending
            (not-true (equals p.settings.id id) q)

  refused_step :
      (id : List ℕ) (h : ℕ) (cancelled : Bool) (what : List ℕ) (s : Scheduler)
      → find id (timer_fired h cancelled (err what) s).pending ≡ find id s.pending
  unfolding timer_fired publish_once
  refused_step id h cancelled what s = go (not cancelled && s.running) (get_elem? s.objects h)
    where
      go :
          (due : Bool) (o : Option Publication)
          → find id
              (if due
                then (elim o as (λ _. Scheduler) [
                  | none ↦ s
                  | some p ↦ publish_once h p (err what) s
                ])
                else s).pending
            ≡ find id s.pending
      go false o = refl
      go true none = refl
      go true (some p) = refl

  quiet_step :
      (id : List ℕ) (s : Scheduler) (e : Event)
      → is_quiet id s e ≡ true
      → find id (step provider s e).pending ≡ left (taken id s e) (find id s.pending)
  unfolding step
  quiet_step id s (configured settings) q = cc
  quiet_step id s started q = refl
  quiet_step id s stopped q = refl
  quiet_step id s flushed q = refl
  quiet_step id s (fired h cancelled (ok answer)) q = fired_step id h cancelled answer s q
  quiet_step id s (fired h cancelled (err what)) q = refused_step id h cancelled what s
  quiet_step id s (ended i outcome now) q = call_step id i (get_elem? s.calls i) outcome now s refl

  -- Nothing is left, and nothing comes.
  stays_empty :
      (id : List ℕ) (s : Scheduler) (es : List Event)
      → quiet id s es ≡ true
      → find id s.pending ≡ none
      → find id (run provider s es).pending ≡ none
  unfolding quiet run
  stays_empty id s [] q f = f
  stays_empty id s (e ∷ es) q f =
      let (now, later) = both (is_quiet id s e) (quiet id (step provider s e) es) q in
      stays_empty id (step provider s e) es later
        (quiet_step id s e now ∙ ap (left (taken id s e)) f ∙ left-none (taken id s e))
    where
      left-none : (o : Option (List ℕ)) → left o none ≡ none
      left-none none = refl
      left-none (some q) = refl

  kept_or_taken :
      (id : List ℕ) (r : PublishRequest) (s : Scheduler) (es : List Event)
      → quiet id s es ≡ true
      → find id s.pending ≡ some r
      → find id (run provider s es).pending ≡ (if delivered id r.payload s es then none else some r)
  unfolding quiet run delivered
  kept_or_taken id r s [] q f = f
  kept_or_taken id r s (e ∷ es) q f =
      let (now, later) = both (is_quiet id s e) (quiet id (step provider s e) es) q in
      go (taken id s e) later (λ f. kept_or_taken id r (step provider s e) es later f)
        (quiet_step id s e now ∙ ap (left (taken id s e)) f)
    where
      Kept : Type 0
      Kept =
          find id (step provider s e).pending ≡ some r
          → find id (run provider (step provider s e) es).pending
            ≡ (if delivered id r.payload (step provider s e) es then none else some r)

      go :
          (o : Option (List ℕ))
          → quiet id (step provider s e) es ≡ true
          → Kept
          → find id (step provider s e).pending ≡ left o (some r)
          → find id (run provider (step provider s e) es).pending ≡ (
              if is_payload r.payload o || delivered id r.payload (step provider s e) es
              then none
              else some r)
      go none q again f = again f
      go (some p) q again f = same (equals r.payload p) f
        where
          same :
              (b : Bool)
              → find id (step provider s e).pending ≡ (if b then none else some r)
              → find id (run provider (step provider s e) es).pending
                ≡ (if b || delivered id r.payload (step provider s e) es then none else some r)
          same true f = stays_empty id (step provider s e) es q f
          same false f = again f

  -- When a timer fires on a running scheduler and there is a snapshot, the request that is made of
  -- it is the one that is pending for its id until the broker has taken a request for that id with
  -- the same payload, and then none is. This holds over any later events, failures and concurrent
  -- flushes, up to the next request for the id or the next configuration.
  pub newest_kept :
      (s : Scheduler) (h : ℕ) (p : Publication) (sequence : ℕ) (payload : List ℕ) (es : List Event)
      → s.running ≡ true
      → get_elem? s.objects h ≡ some p
      → quiet p.settings.id (step provider s (fired h false (ok (sequence, payload)))) es ≡ true
      → find p.settings.id (run provider s (fired h false (ok (sequence, payload)) ∷ es)).pending
        ≡ (if delivered p.settings.id payload
              (step provider s (fired h false (ok (sequence, payload))))
              es
            then none
            else some (request_of p payload))
  unfolding run step timer_fired publish_once begin_publish
  newest_kept s h p sequence payload es on is_object q =
      kept_or_taken p.settings.id (request_of p payload)
        (step provider s (fired h false (ok (sequence, payload)))) es q
        (fires (not false && s.running) (get_elem? s.objects h) on is_object)
    where
      fires :
          (due : Bool) (o : Option Publication)
          → due ≡ true
          → o ≡ some p
          → find p.settings.id
              (if due
                then (elim o as (λ _. Scheduler) [
                  | none ↦ s
                  | some p ↦ publish_once h p (ok (sequence, payload)) s
                ])
                else s).pending
            ≡ some (request_of p payload)
      fires false o d e = cc
      fires true o d e =
          subst
            (λ o.
              find p.settings.id
                (elim o as (λ _. Scheduler) [
                  | none ↦ s
                  | some p ↦ publish_once h p (ok (sequence, payload)) s
                ]).pending
              ≡ some (request_of p payload))
            (sym e) (find-insert_or_assign p.settings.id (request_of p payload) s.pending)
