-- ===== src/Mqtt/Scheduler/Pending.antt =====
-- The map of the pending requests after an insertion and after an erasure.
use msap1_apu.Prelude.{
  ℕ, ◌≡◌, refl, Bool, true, false, List, [], ◌∷◌, Option, none, some, if◌then◌else◌, arith,
}
use msap1_apu.Settings.Texts.{equals, equals_refl, equals_sound}
use msap1_apu.Mqtt.Scheduler.{
  PublishRequest, PendingMap, find, insert_or_assign, erase_found, erase_if_current, erase_current,
}

pub find-insert_or_assign :
    (id : List ℕ) (r : PublishRequest) (m : PendingMap) → find id (insert_or_assign id r m) ≡ some r
unfolding find insert_or_assign
find-insert_or_assign id r [] = rw (equals_refl id) refl
find-insert_or_assign id r ((key, other) ∷ m) =
    ground (arith, find-insert_or_assign id r m, equals_refl id)

pub find-insert_or_assign_other :
    (id j : List ℕ) (r : PublishRequest) (m : PendingMap)
    → equals j id ≡ false
    → find id (insert_or_assign j r m) ≡ find id m
unfolding find insert_or_assign
find-insert_or_assign_other id j r [] h = rw h refl
find-insert_or_assign_other id j r ((key, other) ∷ m) h =
    ground (arith, find-insert_or_assign_other id j r m h, equals_sound key id, equals_sound key j)

pub erase_found_same : (id : List ℕ) (m : PendingMap) → find id (erase_found id m) ≡ none
unfolding find erase_found
erase_found_same id [] = refl
erase_found_same id ((key, r) ∷ m) = ground (arith, erase_found_same id m)

pub erase_found_other :
    (id j : List ℕ) (m : PendingMap) → equals j id ≡ false → find id (erase_found j m) ≡ find id m
unfolding find erase_found
erase_found_other id j [] h = refl
erase_found_other id j ((key, other) ∷ m) h =
    ground (arith, erase_found_other id j m h, equals_sound key id, equals_sound key j)

-- What an id finds after the success of an attempt for another id, or for the same one.
pub find-erase_if_current_other :
    (id j payload : List ℕ) (m : PendingMap)
    → equals j id ≡ false
    → find id (erase_if_current j payload m) ≡ find id m
unfolding erase_if_current
find-erase_if_current_other id j payload m h = go (find j m)
  where
    go : (o : Option PublishRequest) → find id (erase_current j payload m o) ≡ find id m
    go none = refl
    go (some r) = kept (equals r.payload payload)
      where
        kept : (b : Bool) → find id (if b then erase_found j m else m) ≡ find id m
        kept true = erase_found_other id j m h
        kept false = refl

-- What is left of an entry once a payload has been published.
abbrev pub left_of : List ℕ → Option PublishRequest → Option PublishRequest
left_of payload none = none
left_of payload (some r) = if equals r.payload payload then none else some r

pub find-erase_if_current :
    (id payload : List ℕ) (m : PendingMap)
    → find id (erase_if_current id payload m) ≡ left_of payload (find id m)
unfolding erase_if_current
find-erase_if_current id payload m = go (find id m) refl
  where
    go :
        (o : Option PublishRequest)
        → find id m ≡ o
        → find id (erase_current id payload m o) ≡ left_of payload o
    go none e = e
    go (some r) e = kept (equals r.payload payload)
      where
        kept :
            (b : Bool) → find id (if b then erase_found id m else m) ≡ (if b then none else some r)
        kept true = erase_found_same id m
        kept false = e
