-- ===== src/Datalogger/Outbox.antt =====
-- common/mnc/datalogger/outbox_repository.cpp: the manifest of the artifacts and their deliveries,
-- which is a database, and the payload files beside it. A table is the list of its rows; the column
-- job_snapshot_json, which nothing reads, is left out. A text is the list of its bytes and a time is
-- the number of nanoseconds since the epoch. Every filename in the manifest has passed
-- safe_filename, so that payload_path does not throw; the temporary files of atomic_write are left out.
pub mod Names
pub mod Tables
pub mod Claims
pub mod Payloads
pub mod Results
pub mod Removal
pub mod Recovery
pub mod Runs
pub mod Locks
pub mod Kept
mod Examples
use msap1_apu.Prelude.{
  ℕ, Bool, true, false, ◌&&◌, List, [], ◌∷◌, Option, none, some, ◌==◌, if◌then◌else◌,
}
use msap1_apu.Settings.Texts.{equals}

pub data DeliveryState : Type 0 where
  pending retry_wait blocked succeeded administratively_discarded in_flight : DeliveryState

-- A row of `deliveries`, as QueuedDelivery.
pub record QueuedDelivery : Type 0 where
  pub artifact_id : List ℕ
  pub channel_id : List ℕ
  pub state : DeliveryState
  pub attempt_count : ℕ
  pub next_attempt : ℕ
  pub last_attempt : ℕ
  pub remote_result : List ℕ
  pub last_error : List ℕ

-- A row of `artifacts`.
pub record Artifact : Type 0 where
  pub artifact_id : List ℕ
  pub job_id : List ℕ
  pub job_revision : ℕ
  pub filename : List ℕ
  pub mime_type : List ℕ
  pub content_format : List ℕ
  pub checksum : List ℕ
  pub size_bytes : ℕ
  pub source_start : ℕ
  pub source_end : ℕ
  pub generated_at : ℕ
  pub created_at : ℕ
  pub local_only : Bool
  pub payload_present : Bool
  pub recovery_error : List ℕ
  pub delete_pending : Bool

-- A regular file in `archive` or in `outbox`.
pub record PayloadFile : Type 0 where
  pub archived : Bool
  pub name : List ℕ
  pub body : List ℕ

-- A row of `job_watermarks`, and one of `administrative_audit`.
pub record WatermarkRow : Type 0 where
  pub job_id : List ℕ
  pub job_revision : ℕ
  pub completed_through : ℕ
  pub updated_at : ℕ

pub record AuditRow : Type 0 where
  pub artifact_id : List ℕ
  pub discarded : Bool
  pub occurred_at : ℕ
  pub detail : List ℕ

pub record OutboxStoragePolicy : Type 0 where
  pub maximum_bytes : ℕ
  pub minimum_free_bytes : ℕ
  pub completed_metadata_retention : ℕ

pub record Repository : Type 0 where
  pub artifacts : List Artifact
  pub deliveries : List QueuedDelivery
  pub watermarks : List WatermarkRow
  pub audit : List AuditRow
  pub files : List PayloadFile
  pub policy : OutboxStoragePolicy

-- The exceptions: a DatalogError by its code, or one of the standard library's.
pub data OutboxError : Type 0 where
  invalid_argument out_of_range runtime_error storage_failure invalid_configuration : OutboxError

-- What the disk and the database do to a call: whether its transaction commits, whether a payload is
-- removed, whether the statement after that is executed (in `enqueue`, whether the payload is
-- written), and whether the directory is synced.
pub record Luck : Type 0 where
  pub commits : Bool
  pub removes : Bool
  pub updates : Bool
  pub syncs : Bool

unfoldable pub same_state : DeliveryState → DeliveryState → Bool
same_state pending pending = true
same_state retry_wait retry_wait = true
same_state blocked blocked = true
same_state succeeded succeeded = true
same_state administratively_discarded administratively_discarded = true
same_state in_flight in_flight = true
same_state _ _ = false

-- `state IN (3, 4)`: the states that no update leaves.
abbrev pub is_final : DeliveryState → Bool
is_final succeeded = true
is_final administratively_discarded = true
is_final pending = false
is_final retry_wait = false
is_final blocked = false
is_final in_flight = false

abbrev pub is_succeeded : DeliveryState → Bool
is_succeeded succeeded = true
is_succeeded administratively_discarded = false
is_succeeded pending = false
is_succeeded retry_wait = false
is_succeeded blocked = false
is_succeeded in_flight = false

unfoldable pub of_artifact : List ℕ → QueuedDelivery → Bool
of_artifact id d = equals d.artifact_id id

unfoldable pub is_delivery : List ℕ → List ℕ → QueuedDelivery → Bool
unfolding of_artifact
is_delivery id channel d = of_artifact id d && equals d.channel_id channel

-- The rows that the statements select: with the identity, and not to be deleted.
unfoldable pub has_id : List ℕ → Artifact → Bool
has_id id a = equals a.artifact_id id

unfoldable pub live : List ℕ → Artifact → Bool
unfolding has_id
live id a = has_id id a && (if a.delete_pending then false else true)

-- The column filename is UNIQUE.
unfoldable pub has_name : List ℕ → Artifact → Bool
has_name name a = equals a.filename name

unfoldable pub at_path : Bool → List ℕ → PayloadFile → Bool
at_path archived name f =
    (if archived then f.archived else if f.archived then false else true) && equals f.name name
