-- ===== src/Adapters/Dropbox/Batch/Uploaded.antt =====
-- Where the answer of UploadFilesBatch comes from.
use sylos_fs.Base.{
  ℕ, suc, ◌+◌, ◌≤◌, String, List, [], ◌∷◌, false, some, Answer, ok, err, map, length, length-map,
  ltb, ◌==◌, if◌then◌else◌, ◌≡◌, refl, sym, ap, ◌∙◌, arith, Bool-cases, Option-cases, inl, inr, ◌⊎◌,
}
use sylos_fs.Credentials.Retry.{Env, Outcome}
use sylos_fs.Adapters.Classify.{ApiError}
use sylos_fs.Adapters.Calls.{Session}
use sylos_fs.Adapters.Calls.Results.{retried, Obtained, retried-Obtained}
use sylos_fs.Adapters.Calls.Providers.{dropbox_provider}
use sylos_fs.Adapters.Dropbox.Paths.{DropboxFs}
use sylos_fs.Adapters.Dropbox.Batch.{
  Err, BatchApi, BatchEntry, dropbox_upload_batch_max_entries, upload_session_start_batch,
  finish_batch_entries,
}
use sylos_fs.Adapters.Dropbox.Batch.Items.{BatchError, base_path_of}
use sylos_fs.Adapters.Dropbox.Batch.Closing.{start_batch-length, upload_files_batch-closes}
use sylos_fs.Adapters.Dropbox.Batch.Upload.{
  UploadItem, AppendOutcome, Results, bodies, early_result, finish_idx, finish_entries,
  upload_paths, Uploads, append_all, finish_loop, finished, finish, started, with_paths,
  upload_files_batch,
}
use sylos_fs.Adapters.Dropbox.Batch.Merging.{merged, result_without_wait, finish_loop-merged}

module _ {B W : Type 0} (session : Session ApiError W) (env : Env Err W) (api : BatchApi W)
    (up : Uploads B W) where
  append_all-length :
      (i : ℕ) (items : List (UploadItem B)) (ids : List String) (w : W)
      → length ids ≡ length items
      → length (append_all session env api up i items ids w).0.0 ≡ length items
  unfolding append_all
  append_all-length i [] ids w h = refl
  append_all-length i (item ∷ items) [] w h = absurd (omega arith)
  append_all-length i (item ∷ items) (id ∷ ids) w h =
      ap suc (append_all-length (i + 1) items ids _ (omega arith))

  -- The paths of the items, the sessions that were started and what the appends to them left, and
  -- the entries of the finish, which is called unless every append has failed; the results are
  -- these, merged.
  pub record Uploaded (d : DropboxFs) (items : List (UploadItem B)) (results : Results)
      : Type 0 where
    pub paths : List String
    pub ids : List String
    pub outcomes : List AppendOutcome
    pub entries : List BatchEntry
    pub before : W
    pub after : W
    pub pathed : upload_paths d items 0 items ≡ ok paths
    pub opened :
        Obtained dropbox_provider session (upload_session_start_batch api (length items)) ids before
    pub sent : (append_all session env api up 0 items ids before).0 ≡ (outcomes, after)
    pub counted : length outcomes ≡ length items
    pub closing :
        (finish_idx 0 outcomes ≡ [])
        ⊎ ((v : W) × Obtained dropbox_provider session
              (finish_batch_entries api (finish_entries ids paths outcomes))
              entries
              v)
    pub answers :
        map result_without_wait results
        ≡ map some (merged outcomes (map (λ item. base_path_of d item.metadata) items) entries)

  no_items : {A : Type 0} (xs : List A) → length xs ≡ 0 → xs ≡ []
  no_items [] h = refl
  no_items (x ∷ xs) h = absurd (omega arith)

  finished-ok :
      (bases : List String) (outcomes : List AppendOutcome)
      (r : Answer (Outcome Err) (List BatchEntry) × W) (results : Results) (v : W)
      → finished session env api up bases outcomes r ≡ (ok results, v)
      → (entries : List BatchEntry) × (w : W) × (r ≡ (ok entries, w))
        × (length entries ≡ length (finish_idx 0 outcomes))
        × ((finish_loop session env api up bases
              (finish_idx 0 outcomes)
              entries
              (map early_result outcomes)
              w).0
            ≡ results)
  finished-ok bases outcomes (err e, w) results v h = absurd (cc h)
  finished-ok bases outcomes (ok entries, w) results v h =
      elim (Bool-cases (length entries == length (finish_idx 0 outcomes))) [
        | inl equal ↦ (entries, w, refl, ground arith, ground arith)
        | inr other ↦ absurd (ground arith)
      ]

  finish-Uploaded :
      (d : DropboxFs) (items : List (UploadItem B)) (paths ids : List String) (results : Results)
      (u v : W)
      → upload_paths d items 0 items ≡ ok paths
      → Obtained dropbox_provider session (upload_session_start_batch api (length items)) ids u
      → length ids ≡ length items
      → finish session env api up ids paths
          (map (λ item. base_path_of d item.metadata) items)
          (append_all session env api up 0 items ids u).0
        ≡ (ok results, v)
      → Uploaded d items results
  unfolding finish_loop
  finish-Uploaded d items paths ids results u v p o l h =
      let bases = map (λ item. base_path_of d item.metadata) items in
      let (outcomes, u') = (append_all session env api up 0 items ids u).0 in
      let counted = append_all-length 0 items ids u l in
      let based : length bases ≡ length outcomes =
        length-map (λ item. base_path_of d item.metadata) items ∙ sym counted in
      elim (Bool-cases (length (finish_idx 0 outcomes) == 0)) [
        | inl none_left ↦
            let empty : finish_idx 0 outcomes ≡ [] =
              no_items (finish_idx 0 outcomes) (ground arith) in
            let early : map early_result outcomes ≡ results = ground arith in
            record {
              paths = paths;
              ids = ids;
              outcomes = outcomes;
              entries = [];
              before = u;
              after = u';
              pathed = p;
              opened = o;
              sent = refl;
              counted = counted;
              closing = inl empty;
              answers =
                  ap (map result_without_wait) (sym early)
                  ∙ sym (
                      ap
                        (λ idx.
                          map result_without_wait
                            (finish_loop session env api up bases idx [] (map early_result outcomes)
                              u').0)
                        empty)
                  ∙ finish_loop-merged session env api up outcomes [] (map early_result outcomes) []
                      bases bases [] 0 u' refl refl refl refl based (sym (ap length empty));
            }
        | inr some_left ↦
            let r =
              retried dropbox_provider session env "UploadFilesBatchFinish" []
                (finish_batch_entries api (finish_entries ids paths outcomes)) u' in
            let (entries, w, got, equal, same) =
              finished-ok bases outcomes r results v (rw some_left at h) in
            record {
              paths = paths;
              ids = ids;
              outcomes = outcomes;
              entries = entries;
              before = u;
              after = u';
              pathed = p;
              opened = o;
              sent = refl;
              counted = counted;
              closing = inr (
                w,
                retried-Obtained dropbox_provider session env "UploadFilesBatchFinish" []
                    (finish_batch_entries api (finish_entries ids paths outcomes)) u' w entries got,
              );
              answers =
                  ap (map result_without_wait) (sym same)
                  ∙ finish_loop-merged session env api up outcomes [] (map early_result outcomes) []
                      bases bases entries 0 w refl refl refl refl based equal;
            }
      ]

  started-Uploaded :
      (d : DropboxFs) (items : List (UploadItem B)) (paths : List String) (results : Results)
      (r : Answer (Outcome Err) (List String) × W) (v : W)
      → 1 ≤ length items
      → upload_paths d items 0 items ≡ ok paths
      → ((ids : List String) (u : W)
          → r ≡ (ok ids, u)
          → Obtained dropbox_provider session (upload_session_start_batch api (length items)) ids u)
      → (started session env api up items paths
          (map (λ item. base_path_of d item.metadata) items)
          r).0
        ≡ (ok results, v)
      → Uploaded d items results
  started-Uploaded d items paths results (err e, u) v one p from h = absurd (cc h)
  started-Uploaded d items paths results (ok ids, u) v one p from h =
      let (a, b, started, cleared) = from ids u refl in
      finish-Uploaded d items paths ids results u v p (a, b, started, cleared)
        (start_batch-length session env api up (length items) ids a b one started) h

  with_paths-Uploaded :
      (d : DropboxFs) (items : List (UploadItem B)) (results : Results)
      (p : Answer (BatchError × List ℕ) (List String)) (w v : W)
      → 1 ≤ length items
      → upload_paths d items 0 items ≡ p
      → (with_paths session env api up items
          (map (λ item. base_path_of d item.metadata) items)
          p
          w).0
        ≡ (ok results, v)
      → Uploaded d items results
  with_paths-Uploaded d items results (err (e, closed)) w v one p h = absurd (cc h)
  with_paths-Uploaded d items results (ok paths) w v one p h = elim (Option-cases (up.client w)) [
    | inr (e, refused) ↦ absurd (ground arith)
    | inl ready ↦
        started-Uploaded d items paths results _ v one p
          (λ ids u e.
            retried-Obtained dropbox_provider session env "UploadFilesBatchStart" []
              (upload_session_start_batch api (length items)) w u ids e)
          (rw (ready, with_paths) at h)
  ]

  -- An answer of UploadFilesBatch to some items: there are no more than 500 of them, and every body
  -- is closed; a session was started for each, by the last call of start_batch; and each item's
  -- result is the error of its own append or, up to the wait of a rate limit, what its own entry of
  -- the last finish_batch says.
  pub upload_files_batch-Uploaded :
      (d : DropboxFs) (items : List (UploadItem B)) (results : Results) (closed : List ℕ) (w v : W)
      → 1 ≤ length items
      → upload_files_batch session env api up d items w ≡ ((ok results, v), closed)
      → (length items ≤ dropbox_upload_batch_max_entries)
        × (closed ≡ bodies 0 items)
        × Uploaded d items results
  unfolding upload_files_batch
  upload_files_batch-Uploaded d items results closed w v one h =
      elim (Bool-cases (ltb dropbox_upload_batch_max_entries (length items))) [
        | inl many ↦ absurd (ground arith)
        | inr few ↦
            let nonempty : (length items == 0) ≡ false = ground arith in
            let h' = rw (nonempty, few) at h in
            (
              ground arith,
              sym (ap (λ q. q.1) h)
                  ∙ upload_files_batch-closes session env api up d items w
                  ∙ ap (λ b. if b then [] else bodies 0 items) few,
              with_paths-Uploaded d items results (upload_paths d items 0 items) w v one refl
                  (ap (λ q. q.0) h'),
            )
      ]
