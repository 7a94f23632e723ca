-- ===== src/Adapters/Dropbox/Batch/Mapping.antt =====
-- Each item of a batch is answered by its own entry.
use sylos_fs.Base.{
  ℕ, ◌≤◌, pos, String, List, [], ◌∷◌, false, Answer, ok, err, Call, map, length, zip_with, ltb,
  ◌==◌, if◌then◌else◌, ◌≡◌, refl, sym, ap, ◌∙◌, arith, Bool-cases, inl, inr,
}
use sylos_fs.Types.Listing.{Folder}
use sylos_fs.Credentials.Retry.{Env, Outcome}
use sylos_fs.Adapters.Classify.{ApiError}
use sylos_fs.Adapters.Calls.{Session}
use sylos_fs.Adapters.Calls.Results.{Obtained, retried-Obtained}
use sylos_fs.Adapters.Calls.Providers.{dropbox_provider}
use sylos_fs.Adapters.Dropbox.Paths.{DropboxFs}
use sylos_fs.Adapters.Dropbox.Batch.{
  Err, BatchApi, BatchEntry, dropbox_batch_max_entries, create_folder_batch_entries,
  delete_batch_entries,
}
use sylos_fs.Adapters.Dropbox.Batch.Entries.{
  EntryError, plain_error, rate_limited, EntryResult, done, failed, is_success,
  batch_entry_failure_error, is_write_contention_error, map_batch_entry_failure, folder_success,
  delete_success, entry_result, entry_results,
}
use sylos_fs.Adapters.Dropbox.Batch.Items.{
  CreateFolderBatchItem, BatchError, base_path_of, folder_paths, delete_paths, answered, batch_of,
  create_folder_batch, delete_batch,
}

-- A result without the wait of its rate limit, which depends on the session.
abbrev pub error_without_wait : EntryError → EntryError
error_without_wait (plain_error e) = plain_error e
error_without_wait (rate_limited wait e) = rate_limited (pos 0) e

abbrev pub without_wait : {A : Type 0} → EntryResult A → EntryResult A
without_wait (done a) = done a
without_wait (failed e) = failed (error_without_wait e)

-- What an entry says of its item, whatever the session: its value, a rate limit for write
-- contention, or its error.
abbrev pub verdict :
    {A : Type 0} → (String → BatchEntry → EntryResult A) → String → BatchEntry → EntryResult A
verdict success base entry =
    let e = batch_entry_failure_error entry in
    if is_success entry
    then without_wait (success base entry)
    else if is_write_contention_error e
    then failed (rate_limited (pos 0) e)
    else failed (plain_error e)

module _ {W : Type 0} (session : Session ApiError W) (clock : W → ℕ) where
  pub entry_result-verdict :
      {A : Type 0} (success : String → BatchEntry → EntryResult A) (operation base : String)
      (entry : BatchEntry) (w : W)
      → without_wait (entry_result session clock success operation base entry w).0
        ≡ verdict success base entry
  unfolding map_batch_entry_failure
  entry_result-verdict success operation base entry w = elim (Bool-cases (is_success entry)) [
    | inl good ↦ rw good refl
    | inr bad ↦ elim (Bool-cases (is_write_contention_error (batch_entry_failure_error entry))) [
      | inl contended ↦ rw (bad, contended) refl
      | inr other ↦ rw (bad, other) refl
    ]
  ]

  pub entry_results-verdict :
      {A : Type 0} (success : String → BatchEntry → EntryResult A) (operation : String)
      (bases : List String) (entries : List BatchEntry) (w : W)
      → map without_wait (entry_results session clock success operation bases entries w).0
        ≡ zip_with (verdict success) bases entries
  unfolding entry_results
  entry_results-verdict success operation [] entries w = refl
  entry_results-verdict success operation (base ∷ bases) [] w = refl
  entry_results-verdict success operation (base ∷ bases) (entry ∷ entries) w =
      rw
        (
          entry_result-verdict success operation base entry w,
          entry_results-verdict success operation bases entries
              (entry_result session clock success operation base entry w).1,
        )
        refl

module _ {W : Type 0} (session : Session ApiError W) (env : Env Err W) (api : BatchApi W) where
  -- The entries are those of the last call; there is one for each item, and the results are their
  -- verdicts.
  pub record Mapped {A : Type 0} (success : String → BatchEntry → EntryResult A)
      (call : Call W Err (List BatchEntry)) (bases : List String) (results : List (EntryResult A))
      : Type 0 where
    pub entries : List BatchEntry
    pub left : W
    pub obtained : Obtained dropbox_provider session call entries left
    pub counted : length entries ≡ length bases
    pub mapped : map without_wait results ≡ zip_with (verdict success) bases entries

  answered-Mapped :
      {A : Type 0} (success : String → BatchEntry → EntryResult A) (operation : String)
      (call : Call W Err (List BatchEntry)) (bases : List String)
      (r : Answer (Outcome Err) (List BatchEntry) × W) (results : List (EntryResult A)) (w : W)
      → ((entries : List BatchEntry) (v : W)
          → r ≡ (ok entries, v)
          → Obtained dropbox_provider session call entries v)
      → answered session env api success operation bases r ≡ (ok results, w)
      → Mapped success call bases results
  answered-Mapped success operation call bases (err e, v) results w from h = absurd (cc h)
  answered-Mapped success operation call bases (ok entries, v) results w from h =
      elim (Bool-cases (length entries == length bases)) [
        | inr other ↦ absurd (ground arith)
        | inl equal ↦
            let same : (entry_results session env.now success operation bases entries v).0
                ≡ results =
              ground arith in
            record {
              entries = entries;
              left = v;
              obtained = from entries v refl;
              counted = ground arith;
              mapped =
                  ap (map without_wait) (sym same)
                  ∙ entry_results-verdict session env.now success operation bases entries v;
            }
      ]

  batch_of-Mapped :
      {A : Type 0} (success : String → BatchEntry → EntryResult A) (operation : String)
      (call : List String → Call W Err (List BatchEntry)) (bases : List String)
      (r : Answer BatchError (List String)) (results : List (EntryResult A)) (w v : W)
      → batch_of session env api success operation call bases r w ≡ (ok results, v)
      → (paths : List String) × (r ≡ ok paths) × Mapped success (call paths) bases results
  batch_of-Mapped success operation call bases (err e) results w v h = absurd (cc h)
  batch_of-Mapped success operation call bases (ok paths) results w v h = (
    paths,
    refl,
    answered-Mapped success operation (call paths) bases _ results v
        (λ entries u e.
          retried-Obtained dropbox_provider session env operation [] (call paths) w u entries e)
        h,
  )

  -- An answer of CreateFolderBatch to some items: there are no more than 1000 of them; every one
  -- has an API path; the entries are those of the last call for these paths, one for each item; and
  -- each item's result, up to the wait of a rate limit, is what its own entry says.
  pub create_folder_batch-Mapped :
      (d : DropboxFs) (items : List CreateFolderBatchItem) (results : List (EntryResult Folder))
      (w v : W)
      → 1 ≤ length items
      → create_folder_batch session env api d items w ≡ (ok results, v)
      → (length items ≤ dropbox_batch_max_entries)
        × ((paths : List String) × (folder_paths d 0 items ≡ ok paths)
            × Mapped folder_success
                (create_folder_batch_entries api paths)
                (map (λ item. base_path_of d item.metadata) items)
                results)
  unfolding create_folder_batch
  create_folder_batch-Mapped d items results w v some_items h =
      elim (Bool-cases (ltb dropbox_batch_max_entries (length items))) [
        | inl many ↦ absurd (ground arith)
        | inr few ↦
            let nonempty : (length items == 0) ≡ false = ground arith in
            (
              ground arith,
              batch_of-Mapped folder_success "CreateFolderBatch" (create_folder_batch_entries api)
                  (map (λ item. base_path_of d item.metadata) items) (folder_paths d 0 items)
                  results w v (rw (nonempty, few) at h),
            )
      ]

  -- An answer of DeleteBatch to some node ids: there are no more than 1000 of them and none is
  -- blank; the entries are those of the last call for their path references, one for each id; and
  -- each result, up to the wait of a rate limit, is what its own entry says.
  pub delete_batch-Mapped :
      (node_ids : List String) (results : List (EntryResult (Unit {0}))) (w v : W)
      → 1 ≤ length node_ids
      → delete_batch session env api node_ids w ≡ (ok results, v)
      → (length node_ids ≤ dropbox_batch_max_entries)
        × ((paths : List String) × (delete_paths 0 node_ids ≡ ok paths)
            × Mapped delete_success (delete_batch_entries api paths) node_ids results)
  unfolding delete_batch
  delete_batch-Mapped node_ids results w v some_items h =
      elim (Bool-cases (ltb dropbox_batch_max_entries (length node_ids))) [
        | inl many ↦ absurd (ground arith)
        | inr few ↦
            let nonempty : (length node_ids == 0) ≡ false = ground arith in
            (
              ground arith,
              batch_of-Mapped delete_success "DeleteBatch" (delete_batch_entries api) node_ids
                  (delete_paths 0 node_ids) results w v (rw (nonempty, few) at h),
            )
      ]
