-- ===== src/Mqtt/Configure/Drain.antt =====
-- A flush while the broker answers leaves nothing pending.
use msap1_apu.Prelude.{
  ℕ, zero, suc, ◌≡◌, refl, sym, ap, ◌∙◌, subst, ◌⊎◌, inl, inr, Bool, true, false, List, [], ◌∷◌,
  ◌++◌, Option, none, some, if◌then◌else◌, get_elem?, length, replicate,
}
use msap1_apu.Prelude.Integers.{ℤ}
use msap1_apu.Settings.Texts.{equals, equals_refl, equals_sound}
use msap1_apu.Mqtt.Scheduler.{
  PublishRequest, Publication, Scheduler, flushing, find, update_at, succeeded, call_ended,
  end_call, flush_ended, flush_pending, erase_if_current, update_publication, find_publication,
  PendingMap,
}
use msap1_apu.Mqtt.Scheduler.Pending.{find-erase_if_current, find-erase_if_current_other, left_of}
use msap1_apu.Mqtt.Configure.{Provider, flushed, ended, step, run}

get_elem?-update_at :
    {T : Type 0} (i : ℕ) (f : T → T) (xs : List T) (x : T)
    → get_elem? xs i ≡ some x
    → get_elem? (update_at i f xs) i ≡ some (f x)
get_elem?-update_at i f [] x e = cc
get_elem?-update_at zero f (y ∷ ys) x e = cc
get_elem?-update_at (suc i) f (y ∷ ys) x e = get_elem?-update_at i f ys x e

get_elem?-append_end :
    {T : Type 0} (xs : List T) (x : T) → get_elem? (xs ++ (x ∷ [])) (length xs) ≡ some x
get_elem?-append_end [] x = refl
get_elem?-append_end (y ∷ ys) x = get_elem?-append_end ys x

-- Nothing is pending for an id but what the flush has left.
abbrev Covered : PendingMap → PendingMap → Type 0
Covered pending rest = (id : List ℕ) → (find id pending ≡ none) ⊎ (find id pending ≡ find id rest)

erase_if_current-Covered :
    (key : List ℕ) (r : PublishRequest) (pending rest : PendingMap)
    → Covered pending ((key, r) ∷ rest)
    → Covered (erase_if_current key r.payload pending) rest
unfolding find
erase_if_current-Covered key r pending rest c id = go (equals key id) refl (c id)
  where
    at :
        equals key id ≡ true
        → find id (erase_if_current key r.payload pending) ≡ left_of r.payload (find id pending)
    at e =
        subst
          (λ k.
            find id (erase_if_current k r.payload pending) ≡ left_of r.payload (find id pending))
          (sym (equals_sound key id e)) (find-erase_if_current id r.payload pending)

    go :
        (b : Bool)
        → equals key id ≡ b
        → (find id pending ≡ none) ⊎ (find id pending ≡ (if b then some r else find id rest))
        → (find id (erase_if_current key r.payload pending) ≡ none)
          ⊎ (find id (erase_if_current key r.payload pending) ≡ find id rest)
    go true e (inl h) = inl (at e ∙ ap (left_of r.payload) h)
    go true e (inr h) = inl (
        at e
        ∙ ap (left_of r.payload) h
        ∙ ap (λ b. if b then none else some r) (equals_refl r.payload))
    go false e (inl h) = inl (find-erase_if_current_other id key r.payload pending e ∙ h)
    go false e (inr h) = inr (find-erase_if_current_other id key r.payload pending e ∙ h)

update_publication_keeps :
    (id : List ℕ) (f : Publication → Publication) (s : Scheduler)
    → ((update_publication id f s).pending ≡ s.pending)
      × ((update_publication id f s).calls ≡ s.calls)
unfolding update_publication
update_publication_keeps id f s = go (find_publication id s.publications s.objects)
  where
    go :
        (o : Option ℕ)
        → let t = elim o as (λ _. Scheduler) [
          | none ↦ s
          | some h ↦ record s { objects = update_at h f s.objects }
        ] in
          (t.pending ≡ s.pending) × (t.calls ≡ s.calls)
    go none = (refl, refl)
    go (some h) = (refl, refl)

module _ (provider : Provider) (i : ℕ) (now : ℤ) where
  flush_step :
      (key : List ℕ) (r : PublishRequest) (rest : PendingMap) (s : Scheduler)
      → get_elem? s.calls i ≡ some (flushing ((key, r) ∷ rest))
      → let t = step provider s (ended i none now) in
        (t.pending ≡ erase_if_current key r.payload s.pending)
        × (get_elem? t.calls i ≡ some (flushing rest))
  unfolding step call_ended end_call flush_ended
  flush_step key r rest s e =
      let u = record s { pending = erase_if_current key r.payload s.pending } in
      let (p, c) = update_publication_keeps key (succeeded now) u in
      subst
        (λ o.
          ((end_call i o none now s).pending ≡ erase_if_current key r.payload s.pending)
          × (get_elem? (end_call i o none now s).calls i ≡ some (flushing rest)))
        (sym e)
        (
          p,
          get_elem?-update_at i (λ _. flushing rest)
              (update_publication key (succeeded now) u).calls (flushing ((key, r) ∷ rest))
              (ap (λ cs. get_elem? cs i) c ∙ e),
        )

  drains :
      (rest : PendingMap) (s : Scheduler)
      → get_elem? s.calls i ≡ some (flushing rest)
      → Covered s.pending rest
      → (id : List ℕ)
      → find id (run provider s (replicate (length rest) (ended i none now))).pending ≡ none
  unfolding run find
  drains [] s e c id = elim (c id) [ inl h ↦ h | inr h ↦ h ]
  drains ((key, r) ∷ rest) s e c id =
      let (p, g) = flush_step key r rest s e in
      drains rest (step provider s (ended i none now)) g
        (subst (λ m. Covered m rest) (sym p) (erase_if_current-Covered key r s.pending rest c)) id

-- A flush of which every publication succeeds, with no other event in between, ends after one
-- publication for each pending request, with nothing pending for any id.
pub flush_drains :
    (provider : Provider) (s : Scheduler) (now : ℤ) (id : List ℕ)
    → find id
        (run provider s
          (flushed ∷ replicate (length s.pending) (ended (length s.calls) none now))).pending
      ≡ none
unfolding run step flush_pending
flush_drains provider s now id =
    drains provider (length s.calls) now s.pending (flush_pending s)
      (get_elem?-append_end s.calls (flushing s.pending)) (λ id. inr refl) id
