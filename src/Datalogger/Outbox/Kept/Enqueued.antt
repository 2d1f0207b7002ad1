-- ===== src/Datalogger/Outbox/Kept/Enqueued.antt =====
-- common/mnc/datalogger/outbox_repository.cpp: an artifact that was enqueued keeps its content.
use msap1_apu.Prelude.{
  ℕ, ◌≡◌, refl, sym, ap, ◌∙◌, subst, Bool, true, false, not, ◌&&◌, ◌||◌, List, [], ◌∷◌, Option,
  none, some, Result, ok, err, ensure, if◌then◌else◌, length, All, if_elim, clash, >>=-eq-ok, ◌⊎◌,
  inl, inr, arith,
}
use msap1_apu.Settings.Texts.{equals, equals_refl, equals_sound}
use msap1_apu.Datalogger.Outbox.{
  Artifact, PayloadFile, Repository, OutboxError, storage_failure, Luck, has_id, has_name, at_path,
}
use msap1_apu.Datalogger.Outbox.Tables.{exists_where, find_where, weaken_each, find_where-none}
use msap1_apu.Datalogger.Outbox.Payloads.{
  GeneratedDataset, GeneratedContent, enqueue, enqueue_if, enqueue_checked, store_payload,
  insert_manifest, written, check_request, valid_content, new_artifact, find_file, has_room,
  present, content,
}
use msap1_apu.Datalogger.Outbox.Runs.{Event, run}
use msap1_apu.Datalogger.Outbox.Kept.{IsRow, IsPayload, IsKept, Kept}
use msap1_apu.Datalogger.Outbox.Kept.Runs.{Sometime, NotErased, run-Kept, content-Kept}

join_each :
    {T : Type 0} (P Q R : T → Type 0)
    → ((x : T) → P x → Q x → R x)
    → (xs : List T) → All P xs
    → All Q xs
    → All R xs
join_each P Q R h [] p q = tt
join_each P Q R h (x ∷ xs) p q = (h x p.0 q.0, join_each P Q R h xs p.1 q.1)

pub map_right : {X Y Z : Type 0} → (Y → Z) → X ⊎ Y → X ⊎ Z
map_right f (inl x) = inl x
map_right f (inr y) = inr (f y)

none_such :
    {T : Type 0} (test : T → Bool) (xs : List T)
    → exists_where test xs ≡ false
    → All (λ x. test x ≡ false) xs
unfolding exists_where
none_such test [] e = tt
none_such test (x ∷ xs) e = (ground arith, none_such test xs (ground arith))

at_own_path : (f : PayloadFile) → at_path f.archived f.name f ≡ true
unfolding at_path
at_own_path f = own f.archived (equals_refl f.name)
  where
    own :
        (l : Bool)
        → equals f.name f.name ≡ true
        → ((if l then l else if l then false else true) && equals f.name f.name) ≡ true
    own true e = e
    own false e = e

absent : {T : Type 0} (o : Option T) → present o ≡ false → o ≡ none
absent none e = refl
absent (some x) e = cc

module _ (digest : List ℕ → List ℕ) (d : GeneratedDataset) (c : GeneratedContent)
    (local : Bool) where
  abbrev fresh : Artifact
  fresh = new_artifact d c local

  -- The rows and the files after the insertion.
  inserted-IsKept :
      (artifacts : List Artifact) (files : List PayloadFile)
      → find_where (has_id d.artifact_id) artifacts ≡ none
      → exists_where (has_name c.filename) artifacts ≡ false
      → present (find_file local c.filename files) ≡ false
      → IsKept fresh c.body
          (fresh ∷ artifacts)
          (record { archived = local; name = c.filename; body = c.body } ∷ files)
  unfolding new_artifact find_file exists_where
  inserted-IsKept artifacts files no_row no_name no_file =
      let f : PayloadFile = record { archived = local; name = c.filename; body = c.body } in
      let mine : has_id d.artifact_id fresh ≡ true = unfold has_id in equals_refl d.artifact_id in
      let no_id : All (λ b. has_id d.artifact_id b ≡ false) artifacts =
        none_such (has_id d.artifact_id) artifacts
          (find_where-none (has_id d.artifact_id) artifacts no_row) in
      let no_path : All (λ g. at_path local c.filename g ≡ false) files =
        none_such (at_path local c.filename) files (
          find_where-none (at_path local c.filename) files
            (absent (find_where (at_path local c.filename) files) no_file)) in
      record {
        rows = (
          ((λ _. refl), (λ other. clash (has_id d.artifact_id fresh) mine other)),
          join_each (λ b. has_id d.artifact_id b ≡ false) (λ b. has_name c.filename b ≡ false)
              (IsRow fresh c.body)
              (λ b other free. ((λ same. clash (has_id d.artifact_id b) same other), (λ _. free)))
              artifacts no_id (none_such (has_name c.filename) artifacts no_name),
        );
        row_there =
            ap (λ t. if t then true else exists_where (has_id d.artifact_id) artifacts) mine;
        bodies = (
          (λ _. refl),
          weaken_each (λ g. at_path local c.filename g ≡ false) (IsPayload fresh c.body)
              (λ g free at. clash (at_path local c.filename g) at free) files no_path,
        );
        file_there =
            ap (λ t. if t then true else exists_where (at_path local c.filename) files)
              (at_own_path f);
      }

  -- A call that succeeds has inserted the artifact, and has checked its digest.
  abbrev Inserted : Result OutboxError (Unit {0}) × Repository → Type 0
  Inserted x = x.0 ≡ ok tt → Kept fresh c.body x.1

  insert_manifest-Kept :
      (r : Repository) (channels : List (List ℕ)) (commits : Bool)
      → find_where (has_id d.artifact_id) r.artifacts ≡ none
      → present (find_file local c.filename r.files) ≡ false
      → Inserted (insert_manifest r d c channels local commits)
  unfolding insert_manifest written
  insert_manifest-Kept r channels commits no_row no_file =
      if_elim Inserted (commits && not (exists_where (has_name c.filename) r.artifacts))
        (λ unique _. inserted-IsKept r.artifacts r.files no_row (ground arith) no_file) (λ _ e. cc)

  store_payload-Kept :
      (r : Repository) (channels : List (List ℕ)) (available : ℕ) (luck : Luck)
      → find_where (has_id d.artifact_id) r.artifacts ≡ none
      → Inserted (store_payload r d c channels local available luck)
  unfolding store_payload
  store_payload-Kept r channels available luck no_row =
      let full =
        not (has_room r available (length c.body))
        || (present (find_file local c.filename r.files) || not luck.updates) in
      if_elim Inserted full (λ _ e. cc)
        (λ free.
          if_elim Inserted (not luck.syncs) (λ _ e. cc)
            (λ _. insert_manifest-Kept r channels luck.commits no_row (ground arith)))

  pub enqueue_if-Kept :
      (checked : Result OutboxError Unit) (r : Repository) (channels : List (List ℕ))
      (available : ℕ) (luck : Luck)
      → find_where (has_id d.artifact_id) r.artifacts ≡ none
      → Inserted (enqueue_if digest checked r d c channels local available luck)
  unfolding enqueue_if enqueue_checked
  enqueue_if-Kept (err f) r channels available luck no_row = λ e. cc
  enqueue_if-Kept (ok u) r channels available luck no_row =
      subst (λ o. Inserted (enqueue_checked r d c channels local available luck o)) (sym no_row)
        (store_payload-Kept r channels available luck no_row)

  ensured : (test : Bool) (f : OutboxError) (u : Unit {0}) → ensure test f ≡ ok u → test ≡ true
  ensured true f u e = refl
  ensured false f u e = cc

  pub enqueue_if_checked :
      (checked : Result OutboxError Unit) (r : Repository) (channels : List (List ℕ))
      (available : ℕ) (luck : Luck)
      → (enqueue_if digest checked r d c channels local available luck).0 ≡ ok tt
      → checked ≡ ok tt
  unfolding enqueue_if
  enqueue_if_checked (err f) r channels available luck e = cc
  enqueue_if_checked (ok u) r channels available luck e = refl

  pub check_request-valid_content :
      (channels : List (List ℕ))
      → check_request digest d c channels local ≡ ok tt
      → (c.artifact_id ≡ d.artifact_id) × (c.sha256 ≡ digest c.body)
  unfolding check_request valid_content
  check_request-valid_content channels e =
      let (u, valid, _) = >>=-eq-ok (ensure (valid_content digest d c) storage_failure) _ e in
      let all = ensured (valid_content digest d c) storage_failure u valid in
      let same : equals c.artifact_id d.artifact_id ≡ true = ground arith in
      let sum : equals (digest c.body) c.sha256 ≡ true = ground arith in
      (
        equals_sound c.artifact_id d.artifact_id same,
        sym (equals_sound (digest c.body) c.sha256 sum),
      )

-- The content of a new artifact that was enqueued is read back, unchanged, after any calls, in any
-- order, with any failures and any starts of the process between, until a result was recorded after
-- which all of its deliveries have succeeded, or the process was started when they have; as long as
-- no deletion names the artifact.
pub enqueued_content_kept :
    (digest : List ℕ → List ℕ) (r : Repository) (d : GeneratedDataset) (c : GeneratedContent)
    (channels : List (List ℕ)) (local : Bool) (available : ℕ) (luck : Luck) (es : List Event)
    → find_where (has_id d.artifact_id) r.artifacts ≡ none
    → (enqueue digest r d c channels local available luck).0 ≡ ok tt
    → All (NotErased d.artifact_id) es
    → let r' = (enqueue digest r d c channels local available luck).1 in
      Sometime digest d.artifact_id es r' ⊎ (content digest (run digest es r') d.artifact_id ≡ ok c)
unfolding enqueue new_artifact
enqueued_content_kept digest r d c channels local available luck es no_row e spared =
    let checked =
      enqueue_if_checked digest d c local (check_request digest d c channels local) r channels
        available luck e in
    let (same, sum) = check_request-valid_content digest d c local channels checked in
    let kept =
      enqueue_if-Kept digest d c local (check_request digest d c channels local) r channels
        available luck no_row e in
    let a = new_artifact d c local in
    let r' =
      (enqueue_if digest (check_request digest d c channels local) r d c channels local available
        luck).1 in
    map_right
      (λ (k : Kept a c.body (run digest es r')).
        content-Kept digest a c.body refl refl refl sum (run digest es r') k
        ∙ ap (λ i. ok (record c { artifact_id = i })) (sym same))
      (run-Kept digest a c.body refl refl refl sum es r' spared kept)
