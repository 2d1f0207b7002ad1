-- ===== src/Datalogger/Outbox/Recovery.antt =====
-- common/mnc/datalogger/outbox_repository.cpp: `initialize` with recover_locked: what a start makes of
-- the manifest and the files that are left. A payload file that is there can be read, and a name in
-- the two directories is that of a regular file. The statements outside of a release are executed, and
-- all releases of one start have the same luck.
use msap1_apu.Prelude.{
  ℕ, ◌-◌, Bool, true, false, not, ◌&&◌, ◌||◌, List, [], ◌∷◌, ◌++◌, Option, none, some, Result, ok,
  err, ◌==◌, if◌then◌else◌, length, take,
}
use msap1_apu.Settings.Texts.{equals}
use msap1_apu.Datalogger.Outbox.{
  blocked, QueuedDelivery, Artifact, PayloadFile, Repository, OutboxError, runtime_error, Luck,
  has_id, has_name,
}
use msap1_apu.Datalogger.Outbox.Tables.{update_where, select_where, exists_where}
use msap1_apu.Datalogger.Outbox.Claims.{safe_identity}
use msap1_apu.Datalogger.Outbox.Payloads.{safe_filename, find_file}
use msap1_apu.Datalogger.Outbox.Names.{
  json, csv, json_mime, csv_mime, recovered, payload_missing, size_mismatch, checksum_mismatch,
  local_recovered, unsent_recovered,
}
use msap1_apu.Datalogger.Outbox.Results.{all_succeeded, finalize_completed}
use msap1_apu.Datalogger.Outbox.Removal.{is_unsent, finish_pending_deletions}

unfoldable pub block : List ℕ → QueuedDelivery → QueuedDelivery
block e d = record d { state = blocked; last_error = e }

unfoldable pub block_deliveries : List ℕ → List ℕ → List QueuedDelivery → List QueuedDelivery
unfolding block update_where is_unsent
block_deliveries id e rows = update_where (is_unsent id) (block e) rows

abbrev pub with_error : List ℕ → Artifact → Artifact
with_error e a = record a { recovery_error = e }

abbrev pub without_payload : List ℕ → Artifact → Artifact
without_payload e a = record a { payload_present = false; recovery_error = e }

unfoldable pub block_artifact : List ℕ → List ℕ → Repository → Repository
unfolding block_deliveries update_where has_id
block_artifact id e r = record r {
  artifacts = update_where (has_id id) (with_error e) r.artifacts;
  deliveries = block_deliveries id e r.deliveries;
}

-- A manifest without its file, and one with it. `sent` says that all deliveries have succeeded.
unfoldable pub recover_missing : Repository → Artifact → Bool → Repository
unfolding block_deliveries update_where has_id
recover_missing r a sent =
    if not a.local_only && sent
    then record r {
      artifacts = update_where (has_id a.artifact_id) (without_payload []) r.artifacts;
    }
    else if a.payload_present
    then record r {
      artifacts = update_where (has_id a.artifact_id) (without_payload payload_missing) r.artifacts;
      deliveries = block_deliveries a.artifact_id payload_missing r.deliveries;
    }
    else r

module _ (digest : List ℕ → List ℕ) where
  unfoldable pub recover_present :
      Repository → Artifact → Bool → Luck → PayloadFile → Result OutboxError (Unit {0}) × Repository
  unfolding block_artifact finalize_completed
  recover_present r a sent luck f =
      if not (length f.body == a.size_bytes)
      then (ok tt, block_artifact a.artifact_id size_mismatch r)
      else if not (equals (digest f.body) a.checksum)
      then (ok tt, block_artifact a.artifact_id checksum_mismatch r)
      else if not a.local_only && sent
      then finalize_completed r a.artifact_id luck
      else (ok tt, r)

  unfoldable pub recover_manifest :
      Repository
      → Artifact
      → Bool
      → Luck
      → Option PayloadFile
      → Result OutboxError (Unit {0}) × Repository
  unfolding recover_missing recover_present
  recover_manifest r a sent luck none = (ok tt, recover_missing r a sent)
  recover_manifest r a sent luck (some f) = recover_present r a sent luck f

  -- The loop over the manifests that were read at first.
  unfoldable pub recover_manifests :
      List QueuedDelivery
      → List Artifact
      → Luck
      → Result OutboxError (Unit {0}) × Repository
      → Result OutboxError (Unit {0}) × Repository
  unfolding recover_manifest all_succeeded find_file
  recover_manifests first as' luck (err e, r) = (err e, r)
  recover_manifests first [] luck (ok u, r) = (ok u, r)
  recover_manifests first (a ∷ as') luck (ok u, r) = recover_manifests first as' luck (
      recover_manifest r a (all_succeeded a.artifact_id first) luck
        (find_file a.local_only a.filename r.files))

-- What stands after the last dot.
unfoldable pub after_last_dot : List ℕ → Option (List ℕ)
after_last_dot [] = none
after_last_dot (c ∷ cs) = elim (after_last_dot cs) [
  | some e ↦ some e
  | none ↦ if c == 46 then some cs else none
]

unfoldable pub extension_of : List ℕ → List ℕ
unfolding after_last_dot
extension_of name = elim (after_last_dot name) [ some e ↦ e | none ↦ [] ]

abbrev in_outbox : PayloadFile → Bool
in_outbox f = not f.archived

abbrev in_archive : PayloadFile → Bool
in_archive f = f.archived

-- The two directories, as they are after the loop over the manifests.
unfoldable pub listed : List PayloadFile → List PayloadFile
unfolding select_where
listed files = select_where in_outbox files ++ select_where in_archive files

abbrev pub is_kept : Artifact → Bool
is_kept a = not a.delete_pending

unfoldable pub manifests_of : Repository → List Artifact
unfolding select_where
manifests_of r = select_where is_kept r.artifacts

module _ (digest : List ℕ → List ℕ) where
  abbrev proposed_id : PayloadFile → List ℕ
  proposed_id f =
      let id = take (length f.name - length (extension_of f.name) - 1) f.name in
      if safe_identity id then id else recovered ++ (45 ∷ take 24 (digest f.body))

  unfoldable pub recovered_id : List Artifact → PayloadFile → List ℕ
  unfolding extension_of safe_identity exists_where has_id
  recovered_id artifacts f =
      if exists_where (has_id (proposed_id f)) artifacts
      then proposed_id f ++ (45 ∷ take 12 (digest f.body))
      else proposed_id f

  unfoldable pub recovered_artifact : List ℕ → PayloadFile → Artifact
  unfolding extension_of
  recovered_artifact id f = record {
    artifact_id = id;
    job_id = recovered;
    job_revision = 1;
    filename = f.name;
    mime_type = if equals (extension_of f.name) json then json_mime else csv_mime;
    content_format = extension_of f.name;
    checksum = digest f.body;
    size_bytes = length f.body;
    source_start = 0;
    source_end = 0;
    generated_at = 0;
    created_at = 0;
    local_only = f.archived;
    payload_present = true;
    recovery_error = if f.archived then local_recovered else unsent_recovered;
    delete_pending = false;
  }

  -- A file without a manifest. Two rows of one identity or of one filename are refused.
  unfoldable pub recover_file :
      Repository → PayloadFile → Result OutboxError (Unit {0}) × Repository
  unfolding recovered_id recovered_artifact exists_where has_id
  recover_file r f =
      let id = recovered_id r.artifacts f in
      if exists_where (has_id id) r.artifacts || exists_where (has_name f.name) r.artifacts
      then (err runtime_error, r)
      else (ok tt, record r { artifacts = recovered_artifact id f ∷ r.artifacts })

  unfoldable pub is_orphan : List Artifact → PayloadFile → Bool
  unfolding safe_filename extension_of exists_where
  is_orphan manifests f =
      safe_filename f.name
      && (not (exists_where (has_name f.name) manifests)
          && (equals (extension_of f.name) json || equals (extension_of f.name) csv))

  unfoldable pub recover_files :
      List Artifact
      → List PayloadFile
      → Result OutboxError (Unit {0}) × Repository
      → Result OutboxError (Unit {0}) × Repository
  unfolding recover_file is_orphan
  recover_files manifests fs (err e, r) = (err e, r)
  recover_files manifests [] (ok u, r) = (ok u, r)
  recover_files manifests (f ∷ fs) (ok u, r) =
      recover_files manifests fs (if is_orphan manifests f then recover_file r f else (ok u, r))

  unfoldable pub recover_directories :
      List Artifact
      → Result OutboxError (Unit {0}) × Repository
      → Result OutboxError (Unit {0}) × Repository
  unfolding recover_files listed
  recover_directories manifests (err e, r) = (err e, r)
  recover_directories manifests (ok u, r) = recover_files manifests (listed r.files) (ok u, r)

  unfoldable pub recover : Luck → Repository → Result OutboxError (Unit {0}) × Repository
  unfolding recover_manifests recover_directories manifests_of
  recover luck r =
      recover_directories (manifests_of r)
        (recover_manifests digest r.deliveries (manifests_of r) luck (ok tt, r))

  unfoldable pub recover_after :
      Luck → Result OutboxError (Unit {0}) × Repository → Result OutboxError (Unit {0}) × Repository
  unfolding recover
  recover_after luck (err e, r) = (err e, r)
  recover_after luck (ok u, r) = recover luck r

  -- The luck of the deletions, and of the payloads that are released.
  unfoldable pub initialize : Repository → Luck → Luck → Result OutboxError (Unit {0}) × Repository
  unfolding finish_pending_deletions recover_after
  initialize r luck luck' = recover_after luck' (finish_pending_deletions r luck)
