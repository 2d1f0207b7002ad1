-- ===== src/Datalogger/Outbox/Kept.antt =====
-- common/mnc/datalogger/outbox_repository.cpp: what it takes that the payload of an artifact is kept:
-- its row, its file, and that no other row names the file.
pub mod Calls
pub mod Removal
pub mod Additions
pub mod Recovery
pub mod Starts
pub mod Runs
pub mod Enqueued
pub mod Again
use msap1_apu.Prelude.{
  ℕ, ◌+◌, ◌≡◌, refl, sym, ap, ◌∙◌, subst, Bool, true, false, not, ◌&&◌, ◌||◌, List, [], ◌∷◌, ◌++◌,
  Option, none, some, Result, ok, err, ◌==◌, if◌then◌else◌, length, All, if_elim, Bool-cases, clash,
  inl, inr, arith,
}
use msap1_apu.Settings.Texts.{equals, equals_refl, equals_sound}
use msap1_apu.Datalogger.Outbox.{
  Artifact, PayloadFile, QueuedDelivery, Repository, has_id, live, has_name, at_path,
}
use msap1_apu.Datalogger.Outbox.Tables.{
  find_where_exists, exists_where-update_where, exists_where-delete_where, exists_where_mono,
  update_where, delete_where, exists_where, find_where, update_where-All, delete_where-All,
  every_row, weaken_each,
}
use msap1_apu.Datalogger.Outbox.Payloads.{remove_file, find_file, present}

same_path :
    (local : Bool) (name : List ℕ) (f : PayloadFile)
    → at_path local name f ≡ true
    → (f.archived ≡ local) × (f.name ≡ name)
unfolding at_path
same_path local name f e =
    let n : equals f.name name ≡ true = ground arith in
    (archive local f.archived (ground arith), equals_sound f.name name n)
  where
    archive : (l m : Bool) → (if l then m else if m then false else true) ≡ true → m ≡ l
    archive true m e = e
    archive false true e = cc
    archive false false e = refl

-- The artifact `a` with its payload.
module _ (a : Artifact) (payload : List ℕ) where
  -- A row is the artifact's, up to the recovery error, or names another file.
  abbrev pub IsSame : Artifact → Type 0
  IsSame b = b ≡ record a { recovery_error = b.recovery_error }

  abbrev pub IsRow : Artifact → Type 0
  IsRow b =
      (has_id a.artifact_id b ≡ true → IsSame b)
      × (has_id a.artifact_id b ≡ false → has_name a.filename b ≡ false)

  abbrev pub IsPayload : PayloadFile → Type 0
  IsPayload f = at_path a.local_only a.filename f ≡ true → f.body ≡ payload

  pub record IsKept (artifacts : List Artifact) (files : List PayloadFile) : Type 0 where
    pub rows : All IsRow artifacts
    pub row_there : exists_where (has_id a.artifact_id) artifacts ≡ true
    pub bodies : All IsPayload files
    pub file_there : exists_where (at_path a.local_only a.filename) files ≡ true

  abbrev pub Kept : Repository → Type 0
  Kept r = IsKept r.artifacts r.files

  other_file :
      (local : Bool) (name : List ℕ) (f : PayloadFile)
      → equals name a.filename ≡ false
      → at_path a.local_only a.filename f ≡ true
      → at_path local name f ≡ false
  unfolding at_path
  other_file local name f h e = elim (Bool-cases (equals f.name name)) [
    | inl same ↦
        (let mine : equals f.name a.filename ≡ true = ground arith in
          clash (equals name a.filename)
            (subst (λ n. equals n a.filename ≡ true) (equals_sound f.name name same) mine) h)
    | inr other ↦ ground arith
  ]

  -- Removing the file of another row.
  pub remove_file-IsKept :
      (local : Bool) (name : List ℕ) (artifacts : List Artifact) (files : List PayloadFile)
      → equals name a.filename ≡ false
      → IsKept artifacts files
      → IsKept artifacts (remove_file local name files)
  unfolding remove_file
  remove_file-IsKept local name artifacts files h kept = record {
    rows = kept.rows;
    row_there = kept.row_there;
    bodies = delete_where-All IsPayload (at_path local name) files kept.bodies;
    file_there =
        exists_where-delete_where (at_path a.local_only a.filename) (at_path local name) files
          (every_row (λ f. at_path a.local_only a.filename f ≡ true → at_path local name f ≡ false)
            (λ f. other_file local name f h) files)
          kept.file_there;
  }

  -- A change of the rows of another identity.
  pub other_id :
      (id : List ℕ) (b : Artifact)
      → equals id a.artifact_id ≡ false
      → has_id id b ≡ true
      → has_id a.artifact_id b ≡ false
  unfolding has_id
  other_id id b h e =
      subst (λ n. equals n a.artifact_id ≡ false) (sym (equals_sound b.artifact_id id e)) h

  pub update_where-IsKept :
      (id : List ℕ) (change : Artifact → Artifact) (artifacts : List Artifact)
      (files : List PayloadFile)
      → equals id a.artifact_id ≡ false
      → ((b : Artifact) → (change b).artifact_id ≡ b.artifact_id)
      → ((b : Artifact) → (change b).filename ≡ b.filename)
      → IsKept artifacts files
      → IsKept (update_where (has_id id) change artifacts) files
  unfolding has_id has_name
  update_where-IsKept id change artifacts files h same_id same_name kept = record {
    rows =
        update_where-All IsRow (has_id id) change
          (λ b e row.
            let other : has_id a.artifact_id (change b) ≡ false =
              ap (λ n. equals n a.artifact_id) (same_id b) ∙ other_id id b h e in
            (
              (λ mine. clash (has_id a.artifact_id (change b)) mine other),
              (λ _. ap (λ n. equals n a.filename) (same_name b) ∙ row.1 (other_id id b h e)),
            ))
          artifacts kept.rows;
    row_there =
        exists_where-update_where (has_id a.artifact_id) (has_id id) change
          (λ b e. ap (λ n. equals n a.artifact_id) (same_id b) ∙ e) artifacts kept.row_there;
    bodies = kept.bodies;
    file_there = kept.file_there;
  }

  -- A deletion of rows that are not the artifact's.
  pub delete_where-IsKept :
      (test : Artifact → Bool) (artifacts : List Artifact) (files : List PayloadFile)
      → ((b : Artifact) → has_id a.artifact_id b ≡ true → IsSame b → test b ≡ false)
      → IsKept artifacts files
      → IsKept (delete_where test artifacts) files
  delete_where-IsKept test artifacts files h kept = record {
    rows = delete_where-All IsRow test artifacts kept.rows;
    row_there =
        exists_where-delete_where (has_id a.artifact_id) test artifacts
          (weaken_each IsRow (λ b. has_id a.artifact_id b ≡ true → test b ≡ false)
            (λ b row mine. h b mine (row.0 mine)) artifacts kept.rows)
          kept.row_there;
    bodies = kept.bodies;
    file_there = kept.file_there;
  }

  -- Another row.
  pub cons-IsKept :
      (b : Artifact) (artifacts : List Artifact) (files : List PayloadFile)
      → has_id a.artifact_id b ≡ false
      → has_name a.filename b ≡ false
      → IsKept artifacts files
      → IsKept (b ∷ artifacts) files
  unfolding exists_where
  cons-IsKept b artifacts files h n kept = record {
    rows = ((λ mine. clash (has_id a.artifact_id b) mine h, λ _. n), kept.rows);
    row_there = rw h kept.row_there;
    bodies = kept.bodies;
    file_there = kept.file_there;
  }

  -- Another file.
  pub cons_file-IsKept :
      (f : PayloadFile) (artifacts : List Artifact) (files : List PayloadFile)
      → at_path a.local_only a.filename f ≡ false
      → IsKept artifacts files
      → IsKept artifacts (f ∷ files)
  unfolding exists_where
  cons_file-IsKept f artifacts files h kept = record {
    rows = kept.rows;
    row_there = kept.row_there;
    bodies = ((λ mine. clash (at_path a.local_only a.filename f) mine h), kept.bodies);
    file_there = rw h kept.file_there;
  }

  -- Identities, filenames and paths that are free are not the artifact's.
  pub free_id :
      (id : List ℕ) (artifacts : List Artifact) (files : List PayloadFile)
      → IsKept artifacts files
      → exists_where (has_id id) artifacts ≡ false
      → equals id a.artifact_id ≡ false
  free_id id artifacts files kept free = elim (Bool-cases (equals id a.artifact_id)) [
    | inl same ↦ clash (exists_where (has_id a.artifact_id) artifacts) kept.row_there (
        subst (λ i. exists_where (has_id i) artifacts ≡ false) (equals_sound id a.artifact_id same)
          free)
    | inr other ↦ other
  ]

  pub free_name :
      (name : List ℕ) (artifacts : List Artifact) (files : List PayloadFile)
      → IsKept artifacts files
      → exists_where (has_name name) artifacts ≡ false
      → equals name a.filename ≡ false
  unfolding has_name
  free_name name artifacts files kept free = elim (Bool-cases (equals name a.filename)) [
    | inl same ↦
        clash (exists_where (has_name a.filename) artifacts)
          (exists_where_mono (has_id a.artifact_id) (has_name a.filename) artifacts
            (weaken_each IsRow (λ b. has_id a.artifact_id b ≡ true → has_name a.filename b ≡ true)
              (λ b row mine.
                ap (λ (c : Artifact). equals c.filename a.filename) (row.0 mine)
                ∙ equals_refl a.filename)
              artifacts kept.rows)
            kept.row_there)
          (subst (λ n. exists_where (has_name n) artifacts ≡ false)
            (equals_sound name a.filename same) free)
    | inr other ↦ other
  ]

  pub free_path :
      (f : PayloadFile) (artifacts : List Artifact) (files : List PayloadFile)
      → IsKept artifacts files
      → present (find_file f.archived f.name files) ≡ false
      → at_path a.local_only a.filename f ≡ false
  unfolding find_file
  free_path f artifacts files kept free = elim (Bool-cases (at_path a.local_only a.filename f)) [
    | inl same ↦
        (let (l, n) = same_path a.local_only a.filename f same in
          let (g, found) =
            find_where_exists (at_path a.local_only a.filename) files kept.file_there in
          clash (present (find_where (at_path a.local_only a.filename) files)) (ap present found) (
            subst (λ m. present (find_where (at_path a.local_only m) files) ≡ false) n
              (subst (λ k. present (find_where (at_path k f.name) files) ≡ false) l free)))
    | inr other ↦ other
  ]
