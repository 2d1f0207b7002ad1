-- ===== src/Datalogger/Outbox/Payloads.antt =====
-- common/mnc/datalogger/outbox_repository.cpp: `enqueue`, `content`, the storage guard, the watermarks
-- of the initialized outbox. The digest is OpenSSL's, and the bytes available on the filesystem
-- are an argument. An atomic_write that fails before its rename leaves no payload.
use msap1_apu.Prelude.{
  ℕ, ◌+◌, ◌-◌, Bool, true, false, not, ◌&&◌, ◌||◌, List, [], ◌∷◌, ◌++◌, map, Option, none, some,
  Result, ok, err, ◌>>◌, ensure, leb, ◌==◌, if◌then◌else◌, length,
}
use msap1_apu.Settings.Texts.{equals}
use msap1_apu.Datalogger.Outbox.{
  pending, QueuedDelivery, Artifact, PayloadFile, WatermarkRow, OutboxStoragePolicy, Repository,
  OutboxError, invalid_argument, out_of_range, runtime_error, storage_failure,
  invalid_configuration, Luck, has_id, live, has_name, at_path,
}
use msap1_apu.Datalogger.Outbox.Names.{json, csv}
use msap1_apu.Datalogger.Outbox.Tables.{find_where, exists_where, delete_where}
use msap1_apu.Datalogger.Outbox.Claims.{safe_identity, is_word, distinct_identities}

abbrev pub all_filename : List ℕ → Bool
all_filename [] = true
all_filename (c ∷ cs) = (is_word c || c == 46) && all_filename cs

abbrev starts_with_dot : List ℕ → Bool
starts_with_dot [] = false
starts_with_dot (c ∷ cs) = c == 46

unfoldable pub safe_filename : List ℕ → Bool
safe_filename value =
    not (length value == 0)
    && (leb (length value) 240 && (not (starts_with_dot value) && all_filename value))

pub record GeneratedContent : Type 0 where
  pub artifact_id : List ℕ
  pub filename : List ℕ
  pub mime_type : List ℕ
  pub extension : List ℕ
  pub body : List ℕ
  pub sha256 : List ℕ

-- What `enqueue` reads of a dataset.
pub record GeneratedDataset : Type 0 where
  pub artifact_id : List ℕ
  pub job_id : List ℕ
  pub job_revision : ℕ
  pub generated_at : ℕ
  pub window_start : ℕ
  pub window_end : ℕ

unfoldable pub find_file : Bool → List ℕ → List PayloadFile → Option PayloadFile
unfolding find_where at_path
find_file archived name files = find_where (at_path archived name) files

unfoldable pub remove_file : Bool → List ℕ → List PayloadFile → List PayloadFile
unfolding delete_where at_path
remove_file archived name files = delete_where (at_path archived name) files

-- StorageGuardStatus: the bytes of the payloads, and the reason that blocks the generation.
unfoldable pub payload_bytes : List PayloadFile → ℕ
payload_bytes [] = 0
payload_bytes (f ∷ files) = length f.body + payload_bytes files

unfoldable pub generation_allowed : Repository → ℕ → Bool
unfolding payload_bytes
generation_allowed r available =
    not (leb r.policy.maximum_bytes (payload_bytes r.files))
    && not (leb available r.policy.minimum_free_bytes)

-- The guard of `enqueue` on a body of `size` bytes.
unfoldable pub has_room : Repository → ℕ → ℕ → Bool
unfolding generation_allowed payload_bytes
has_room r available size =
    generation_allowed r available
    && (leb size (r.policy.maximum_bytes - payload_bytes r.files)
        && leb size (available - r.policy.minimum_free_bytes))

unfoldable pub update_storage_policy :
    Repository → OutboxStoragePolicy → Result OutboxError (Unit {0}) × Repository
update_storage_policy r policy =
    if policy.maximum_bytes == 0 || policy.completed_metadata_retention == 0
    then (err invalid_argument, r)
    else (ok tt, record r { policy = policy })

unfoldable pub new_delivery : List ℕ → List ℕ → QueuedDelivery
new_delivery id channel = record {
  artifact_id = id;
  channel_id = channel;
  state = pending;
  attempt_count = 0;
  next_attempt = 0;
  last_attempt = 0;
  remote_result = [];
  last_error = [];
}

unfoldable pub new_artifact : GeneratedDataset → GeneratedContent → Bool → Artifact
new_artifact d c local = record {
  artifact_id = d.artifact_id;
  job_id = d.job_id;
  job_revision = d.job_revision;
  filename = c.filename;
  mime_type = c.mime_type;
  content_format = c.extension;
  checksum = c.sha256;
  size_bytes = length c.body;
  source_start = d.window_start;
  source_end = d.window_end;
  generated_at = d.generated_at;
  created_at = d.generated_at;
  local_only = local;
  payload_present = true;
  recovery_error = [];
  delete_pending = false;
}

-- The row of the same identity has the same manifest.
unfoldable pub same_manifest : GeneratedDataset → GeneratedContent → Artifact → Bool
same_manifest d c a =
    equals a.filename c.filename
    && (equals a.checksum c.sha256
        && (a.size_bytes == length c.body
            && (a.source_start == d.window_start
                && (a.source_end == d.window_end && a.job_revision == d.job_revision))))

module _ (digest : List ℕ → List ℕ) where
  unfoldable pub valid_content : GeneratedDataset → GeneratedContent → Bool
  unfolding safe_filename safe_identity
  valid_content d c =
      safe_identity d.artifact_id
      && (equals c.artifact_id d.artifact_id
          && (safe_filename c.filename
              && (equals c.filename (d.artifact_id ++ (46 ∷ c.extension))
                  && ((equals c.extension json || equals c.extension csv)
                      && (equals (digest c.body) c.sha256 && length c.sha256 == 64)))))

  unfoldable pub check_request :
      GeneratedDataset → GeneratedContent → List (List ℕ) → Bool → Result OutboxError (Unit {0})
  unfolding valid_content distinct_identities
  check_request d c channels local = do
    ensure (valid_content d c) storage_failure
    ensure (if local then length channels == 0 else not (length channels == 0))
        invalid_configuration
    ensure (distinct_identities channels) invalid_configuration

unfoldable pub written : Repository → GeneratedContent → Bool → Repository
written r c local = record r {
  files = record { archived = local; name = c.filename; body = c.body } ∷ r.files;
}

-- The payload is written; where the transaction fails, the file stays.
unfoldable pub insert_manifest :
    Repository
    → GeneratedDataset
    → GeneratedContent
    → List (List ℕ)
    → Bool
    → Bool
    → Result OutboxError (Unit {0}) × Repository
unfolding new_artifact new_delivery written has_name exists_where
insert_manifest r d c channels local commits =
    if commits && not (exists_where (has_name c.filename) r.artifacts)
    then (
      ok tt,
      record (written r c local) {
        artifacts = new_artifact d c local ∷ r.artifacts;
        deliveries = map (new_delivery d.artifact_id) channels ++ r.deliveries;
      },
    )
    else (err runtime_error, written r c local)

abbrev pub present : {T : Type 0} → Option T → Bool
present none = false
present (some x) = true

-- A new artifact: the guard, and the file that must not be there.
unfoldable pub store_payload :
    Repository
    → GeneratedDataset
    → GeneratedContent
    → List (List ℕ)
    → Bool
    → ℕ
    → Luck
    → Result OutboxError (Unit {0}) × Repository
unfolding has_room insert_manifest find_file
store_payload r d c channels local available luck =
    if not (has_room r available (length c.body))
      || (present (find_file local c.filename r.files) || not luck.updates)
    then (err storage_failure, r)
    else if not luck.syncs
    then (err storage_failure, written r c local)
    else insert_manifest r d c channels local luck.commits

unfoldable pub enqueue_checked :
    Repository
    → GeneratedDataset
    → GeneratedContent
    → List (List ℕ)
    → Bool
    → ℕ
    → Luck
    → Option Artifact
    → Result OutboxError (Unit {0}) × Repository
unfolding store_payload same_manifest
enqueue_checked r d c channels local available luck none =
    store_payload r d c channels local available luck
enqueue_checked r d c channels local available luck (some a) =
    if same_manifest d c a then (ok tt, r) else (err storage_failure, r)

module _ (digest : List ℕ → List ℕ) where
  unfoldable pub enqueue_if :
      Result OutboxError (Unit {0})
      → Repository
      → GeneratedDataset
      → GeneratedContent
      → List (List ℕ)
      → Bool
      → ℕ
      → Luck
      → Result OutboxError (Unit {0}) × Repository
  unfolding enqueue_checked find_where has_id
  enqueue_if (err e) r d c channels local available luck = (err e, r)
  enqueue_if (ok u) r d c channels local available luck =
      enqueue_checked r d c channels local available luck
        (find_where (has_id d.artifact_id) r.artifacts)

  unfoldable pub enqueue :
      Repository
      → GeneratedDataset
      → GeneratedContent
      → List (List ℕ)
      → Bool
      → ℕ
      → Luck
      → Result OutboxError (Unit {0}) × Repository
  unfolding enqueue_if check_request
  enqueue r d c channels local available luck =
      enqueue_if (check_request digest d c channels local) r d c channels local available luck

  -- `read_file` of the expected size, and the checksum.
  unfoldable pub read_content : Artifact → Option PayloadFile → Result OutboxError GeneratedContent
  read_content a none = err storage_failure
  read_content a (some f) = do
    ensure (length f.body == a.size_bytes) storage_failure
    ensure (equals (digest f.body) a.checksum) storage_failure
    ok (record {
      artifact_id = a.artifact_id;
      filename = a.filename;
      mime_type = a.mime_type;
      extension = a.content_format;
      body = f.body;
      sha256 = a.checksum;
    })

  unfoldable pub retained_content :
      Repository → Option Artifact → Result OutboxError GeneratedContent
  unfolding read_content find_file
  retained_content r none = err out_of_range
  retained_content r (some a) =
      if not a.payload_present
      then err storage_failure
      else read_content a (find_file a.local_only a.filename r.files)

  unfoldable pub content : Repository → List ℕ → Result OutboxError GeneratedContent
  unfolding retained_content find_where live
  content r id = retained_content r (find_where (live id) r.artifacts)

-- The watermarks.
unfoldable pub for_job : List ℕ → WatermarkRow → Bool
for_job id w = equals w.job_id id

unfoldable pub watermark : Repository → List ℕ → Option WatermarkRow
unfolding find_where for_job
watermark r id = find_where (for_job id) r.watermarks

-- INSERT ... ON CONFLICT(job_id) DO UPDATE.
unfoldable pub store_watermark :
    Repository → WatermarkRow → Luck → Result OutboxError (Unit {0}) × Repository
unfolding safe_identity delete_where for_job
store_watermark r w luck =
    if not (safe_identity w.job_id) || w.job_revision == 0
    then (err invalid_argument, r)
    else if luck.commits
    then (ok tt, record r { watermarks = w ∷ delete_where (for_job w.job_id) r.watermarks })
    else (err runtime_error, r)
