-- ===== src/Adapters/Dropbox/Batch/Closing.antt =====
-- Which bodies UploadFilesBatch closes, over its error paths and its appends.
use sylos_fs.Base.{
  ℕ, ◌+◌, ◌≤◌, String, List, [], ◌∷◌, ◌++◌, false, Answer, ok, err, and_then-ok, map, length, ◌&&◌,
  ltb, ◌==◌, if◌then◌else◌, ◌≡◌, refl, sym, ap, ◌∙◌, arith, Bool-cases, Option-cases, inl, inr,
}
use sylos_fs.Credentials.Retry.{Env, Outcome}
use sylos_fs.Adapters.Classify.{ApiError}
use sylos_fs.Adapters.Calls.{Session}
use sylos_fs.Adapters.Calls.Results.{retried-Obtained}
use sylos_fs.Adapters.Calls.Providers.{dropbox_provider}
use sylos_fs.Adapters.Dropbox.Paths.{
  DropboxFs, is_root_ref, is_team_space, ApiPath, wire, refused, create_api_path,
}
use sylos_fs.Adapters.Dropbox.Batch.{
  Err, BatchApi, dropbox_upload_batch_max_entries, upload_session_start_batch,
}
use sylos_fs.Adapters.Dropbox.Batch.Items.{BatchError, bad_item, base_path_of}
use sylos_fs.Adapters.Dropbox.Batch.Upload.{
  UploadItem, bodies, close_body, with_path, upload_paths, Uploads, append_all, started, with_paths,
  upload_files_batch,
}

-- What an error of the first loop closes.
upload_paths-closes :
    {B : Type 0} (d : DropboxFs) (all : List (UploadItem B)) (i : ℕ) (items : List (UploadItem B))
    (e : BatchError) (closed : List ℕ)
    → upload_paths d all i items ≡ err (e, closed)
    → closed ≡ bodies 0 all
unfolding upload_paths
upload_paths-closes d all i [] e closed h = absurd (cc h)
upload_paths-closes d all i (item ∷ items) e closed h =
    elim (Bool-cases (is_team_space d.ctx && is_root_ref item.parent_id)) [
      | inl root ↦ cc (rw root at h)
      | inr other ↦
          refused_or (create_api_path d item.parent_id item.name) (upload_paths d all (i + 1) items)
            (upload_paths-closes d all (i + 1) items e closed) (rw other at h)
    ]
  where
    refused_or :
        (c : ApiPath) (rest : Answer (BatchError × List ℕ) (List String))
        → (rest ≡ err (e, closed) → closed ≡ bodies 0 all)
        → (elim c [ refused x ↦ err (bad_item i x, bodies 0 all) | wire p ↦ with_path p rest ])
          ≡ err (e, closed)
        → closed ≡ bodies 0 all
    refused_or (refused x) rest ih k = cc k
    refused_or (wire p) (ok ps) ih k = absurd (cc k)
    refused_or (wire p) (err x) ih k = ih k

close_body-bodies :
    {B : Type 0} (i : ℕ) (item : UploadItem B) (items : List (UploadItem B))
    → close_body i item.body ++ bodies (i + 1) items ≡ bodies i (item ∷ items)
close_body-bodies i item items = elim (Option-cases item.body) [
  | inl nil ↦ rw nil refl
  | inr (body, given) ↦ rw given refl
]

module _ {B W : Type 0} (session : Session ApiError W) (env : Env Err W) (api : BatchApi W)
    (up : Uploads B W) where
  append_all-closes :
      (i : ℕ) (items : List (UploadItem B)) (ids : List String) (w : W)
      → length ids ≡ length items
      → (append_all session env api up i items ids w).1 ≡ bodies i items
  unfolding append_all
  append_all-closes i [] ids w h = refl
  append_all-closes i (item ∷ items) [] w h = absurd (omega arith)
  append_all-closes i (item ∷ items) (id ∷ ids) w h =
      ap (λ l. close_body i item.body ++ l) (append_all-closes (i + 1) items ids _ (omega arith))
      ∙ close_body-bodies i item items

  pub start_batch-length :
      (n : ℕ) (ids : List String) (w v : W)
      → 1 ≤ n
      → upload_session_start_batch api n w ≡ (ok ids, v)
      → length ids ≡ n
  unfolding upload_session_start_batch
  start_batch-length n ids w v one h = elim (Bool-cases (n == 0)) [
    | inl z ↦ absurd (ground arith)
    | inr nz ↦
        let (given, u, started, checked) = and_then-ok (api.start_batch n w) _ (rw nz at h) in
        elim (Bool-cases (length given == n)) [
          | inl right ↦
              let same : given ≡ ids = ground arith in
              let counted : length given ≡ n = ground arith in sym (ap length same) ∙ counted
          | inr wrong ↦ absurd (ground arith)
        ]
  ]

  started-closes :
      (items : List (UploadItem B)) (paths bases : List String)
      (r : Answer (Outcome Err) (List String) × W)
      → ((ids : List String) (u : W) → r ≡ (ok ids, u) → length ids ≡ length items)
      → (started session env api up items paths bases r).1 ≡ bodies 0 items
  started-closes items paths bases (err e, w) counted = refl
  started-closes items paths bases (ok ids, w) counted =
      append_all-closes 0 items ids w (counted ids w refl)

  with_paths-closes :
      (d : DropboxFs) (items : List (UploadItem B)) (bases : List String)
      (p : Answer (BatchError × List ℕ) (List String)) (w : W)
      → 1 ≤ length items
      → upload_paths d items 0 items ≡ p
      → (with_paths session env api up items bases p w).1 ≡ bodies 0 items
  with_paths-closes d items bases (err (e, closed)) w one h =
      upload_paths-closes d items 0 items e closed h
  with_paths-closes d items bases (ok paths) w one h = elim (Option-cases (up.client w)) [
    | inr (e, failed) ↦ rw (failed, with_paths) refl
    | inl ready ↦
        rw (ready, with_paths)
          (started-closes items paths bases _ (λ ids u e.
            let (a, b, begun, cleared) =
              retried-Obtained dropbox_provider session env "UploadFilesBatchStart" []
                (upload_session_start_batch api (length items)) w u ids e in
            start_batch-length (length items) ids a b one begun))
  ]

  -- More than 500 files are refused with their bodies left open, and so are no files; else every
  -- body is closed once, whatever the answer is.
  pub upload_files_batch-closes :
      (d : DropboxFs) (items : List (UploadItem B)) (w : W)
      → (upload_files_batch session env api up d items w).1
        ≡ (if ltb dropbox_upload_batch_max_entries (length items) then [] else bodies 0 items)
  unfolding upload_files_batch
  upload_files_batch-closes d [] w = refl
  upload_files_batch-closes d (item ∷ items) w =
      let nonempty : (length (item ∷ items) == 0) ≡ false = ground arith in
      elim (Bool-cases (ltb dropbox_upload_batch_max_entries (length (item ∷ items)))) [
        | inl many ↦ rw (nonempty, many) refl
        | inr few ↦
            rw (nonempty, few)
              (with_paths-closes d (item ∷ items)
                (map (λ i. base_path_of d i.metadata) (item ∷ items))
                (upload_paths d (item ∷ items) 0 (item ∷ items)) w (omega arith) refl)
      ]
