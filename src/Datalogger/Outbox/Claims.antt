-- ===== src/Datalogger/Outbox/Claims.antt =====
-- common/mnc/datalogger/outbox_repository.cpp: `due`, `claim_due`, `retry`, `retry_channel` and
-- `validate_channels`. The identities that the callers pass are checked first.
use msap1_apu.Prelude.{
  ℕ, ◌%◌, ◌^◌, Bool, true, false, not, ◌&&◌, ◌||◌, List, [], ◌∷◌, map, Result, ok, err, ltb, leb,
  ◌==◌, if◌then◌else◌, length, take,
}
use msap1_apu.Settings.Texts.{equals}
use msap1_apu.Datalogger.Outbox.{
  DeliveryState, pending, retry_wait, blocked, in_flight, same_state, is_final, QueuedDelivery,
  Artifact, Repository, OutboxError, invalid_argument, out_of_range, runtime_error, of_artifact,
  is_delivery, live, Luck,
}
use msap1_apu.Datalogger.Outbox.Tables.{update_where, select_where, exists_where}

abbrev pub maximum_artifact_list_page : ℕ
maximum_artifact_list_page = 500

abbrev pub is_word : ℕ → Bool
is_word c =
    (leb 48 c && leb c 57)
    || ((leb 65 c && leb c 90) || ((leb 97 c && leb c 122) || (c == 45 || c == 95)))

abbrev pub all_words : List ℕ → Bool
all_words [] = true
all_words (c ∷ cs) = is_word c && all_words cs

unfoldable pub safe_identity : List ℕ → Bool
safe_identity value = not (length value == 0) && (leb (length value) 160 && all_words value)

-- The order of texts, byte by byte.
unfoldable pub text_lt : List ℕ → List ℕ → Bool
text_lt [] [] = false
text_lt [] (c ∷ cs) = true
text_lt (b ∷ bs) [] = false
text_lt (b ∷ bs) (c ∷ cs) = if b == c then text_lt bs cs else ltb b c

-- ORDER BY next_attempt_ns, artifact_id, channel_id.
unfoldable pub comes_before : QueuedDelivery → QueuedDelivery → Bool
unfolding text_lt
comes_before d e =
    if not (d.next_attempt == e.next_attempt)
    then ltb d.next_attempt e.next_attempt
    else if not (equals d.artifact_id e.artifact_id)
    then text_lt d.artifact_id e.artifact_id
    else text_lt d.channel_id e.channel_id

unfoldable pub insert_ordered : QueuedDelivery → List QueuedDelivery → List QueuedDelivery
unfolding comes_before
insert_ordered d [] = d ∷ []
insert_ordered d (e ∷ es) =
    let rest = insert_ordered d es in if comes_before e d then e ∷ rest else d ∷ (e ∷ es)

unfoldable pub in_order : List QueuedDelivery → List QueuedDelivery
unfolding insert_ordered
in_order [] = []
in_order (d ∷ ds) = insert_ordered d (in_order ds)

abbrev pub is_due : DeliveryState → Bool
is_due s = same_state s pending || (same_state s retry_wait || same_state s in_flight)

unfoldable pub deliverable : QueuedDelivery → Artifact → Bool
unfolding live
deliverable d a = live d.artifact_id a && a.payload_present

unfoldable pub due_row : Repository → ℕ → QueuedDelivery → Bool
unfolding deliverable same_state exists_where
due_row r now d =
    exists_where (deliverable d) r.artifacts && (is_due d.state && leb d.next_attempt now)

unfoldable pub selected : Repository → ℕ → ℕ → List QueuedDelivery
unfolding due_row in_order select_where
selected r now limit = take limit (in_order (select_where (due_row r now) r.deliveries))

abbrev pub bad_limit : ℕ → Bool
bad_limit limit = limit == 0 || ltb maximum_artifact_list_page limit

-- A row as it is read: without the columns that the statement does not select.
unfoldable pub read_row : DeliveryState → ℕ → QueuedDelivery → QueuedDelivery
read_row state next d = record {
  artifact_id = d.artifact_id;
  channel_id = d.channel_id;
  state = state;
  attempt_count = d.attempt_count % 2 ^ 32;
  next_attempt = next;
  last_attempt = 0;
  remote_result = [];
  last_error = [];
}

unfoldable pub due : Repository → ℕ → ℕ → Result OutboxError (List QueuedDelivery)
unfolding selected read_row
due r now limit =
    if bad_limit limit
    then err invalid_argument
    else ok (map (λ d. read_row d.state d.next_attempt d) (selected r now limit))

unfoldable pub lease : ℕ → QueuedDelivery → QueuedDelivery
lease until d = record d { state = in_flight; next_attempt = until }

unfoldable pub claim_all : ℕ → List QueuedDelivery → List QueuedDelivery → List QueuedDelivery
unfolding lease update_where is_delivery
claim_all until [] rows = rows
claim_all until (c ∷ claimed) rows =
    claim_all until claimed
      (update_where (is_delivery c.artifact_id c.channel_id) (lease until) rows)

unfoldable pub claim_due :
    Repository → ℕ → ℕ → ℕ → Luck → Result OutboxError (List QueuedDelivery) × Repository
unfolding selected read_row claim_all
claim_due r now until limit luck =
    if bad_limit limit || leb until now
    then (err invalid_argument, r)
    else (let claimed = map (read_row in_flight until) (selected r now limit) in
        if luck.commits
        then (ok claimed, record r { deliveries = claim_all until claimed r.deliveries })
        else (err runtime_error, r))

unfoldable pub is_retried : DeliveryState → Bool
unfolding same_state
is_retried s = same_state s pending || (same_state s retry_wait || same_state s blocked)

unfoldable pub requeue : ℕ → QueuedDelivery → QueuedDelivery
requeue now d = record d { state = pending; next_attempt = now; last_error = [] }

-- One artifact of the selection.
unfoldable pub retry_rows : List ℕ → ℕ → List QueuedDelivery → List QueuedDelivery
unfolding requeue is_retried update_where of_artifact
retry_rows id now rows =
    update_where (λ d. of_artifact id d && is_retried d.state) (requeue now) rows

-- The loop of the transaction: an unknown identity rolls it back.
unfoldable pub retry_loop :
    List Artifact
    → List (List ℕ)
    → ℕ
    → List QueuedDelivery
    → Result OutboxError (List QueuedDelivery)
unfolding retry_rows live exists_where
retry_loop artifacts [] now rows = ok rows
retry_loop artifacts (id ∷ ids) now rows =
    let rest = retry_loop artifacts ids now (retry_rows id now rows) in
    if exists_where (live id) artifacts then rest else err out_of_range

unfoldable pub retried :
    Repository
    → Bool
    → Result OutboxError (List QueuedDelivery)
    → Result OutboxError (Unit {0}) × Repository
retried r commits (err e) = (err e, r)
retried r true (ok rows) = (ok tt, record r { deliveries = rows })
retried r false (ok rows) = (err runtime_error, r)

unfoldable pub retry :
    Repository → List (List ℕ) → ℕ → Luck → Result OutboxError (Unit {0}) × Repository
unfolding retry_loop retried
retry r ids now luck =
    if length ids == 0 || ltb 500 (length ids)
    then (err invalid_argument, r)
    else retried r luck.commits (retry_loop r.artifacts ids now r.deliveries)

unfoldable pub retry_channel :
    Repository → List ℕ → ℕ → Luck → Result OutboxError (Unit {0}) × Repository
unfolding safe_identity requeue same_state update_where
retry_channel r channel now luck =
    if not (safe_identity channel)
    then (err invalid_argument, r)
    else if luck.commits
    then (
      ok tt,
      record r {
        deliveries =
            update_where (λ d. equals d.channel_id channel && same_state d.state blocked)
              (requeue now) r.deliveries;
      },
    )
    else (err runtime_error, r)

abbrev pub is_text : List ℕ → List ℕ → Bool
is_text x y = equals x y

-- The identities are safe, and none stands twice.
unfoldable pub distinct_identities : List (List ℕ) → Bool
unfolding safe_identity exists_where
distinct_identities [] = true
distinct_identities (id ∷ ids) =
    safe_identity id && (not (exists_where (is_text id) ids) && distinct_identities ids)

unfoldable pub awaits_channel : Repository → List (List ℕ) → QueuedDelivery → Bool
unfolding exists_where live
awaits_channel r available d =
    exists_where (live d.artifact_id) r.artifacts
    && (not (is_final d.state) && not (exists_where (is_text d.channel_id) available))

unfoldable pub validate_channels : Repository → List (List ℕ) → Result OutboxError (Unit {0})
unfolding distinct_identities awaits_channel exists_where
validate_channels r available =
    if not (distinct_identities available)
    then err invalid_argument
    else if exists_where (awaits_channel r available) r.deliveries
    then err runtime_error
    else ok tt
