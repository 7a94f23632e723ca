-- ===== src/Adapters/Dropbox/Batch/Merging.antt =====
-- Each file of UploadFilesBatch is answered by its own append and its own entry.
use sylos_fs.Base.{
  ℕ, ◌+◌, String, List, [], ◌∷◌, ◌++◌, append-nil, append_assoc, map-append, Option, none, some, ok,
  err, map, length, length-append, get_elem?, ◌≡◌, refl, sym, ap, ◌∙◌, arith,
}
use sylos_fs.Types.Listing.{File}
use sylos_fs.Credentials.Retry.{Env, get_or}
use sylos_fs.Adapters.Classify.{ApiError}
use sylos_fs.Adapters.Calls.{Session}
use sylos_fs.Adapters.Dropbox.Batch.{Err, BatchApi, BatchEntry}
use sylos_fs.Adapters.Dropbox.Batch.Entries.{
  plain_error, EntryResult, failed, file_success, entry_result,
}
use sylos_fs.Adapters.Dropbox.Batch.Mapping.{without_wait, verdict, entry_result-verdict}
use sylos_fs.Adapters.Dropbox.Batch.Upload.{
  AppendOutcome, Results, set_at, early_result, finish_idx, Uploads, finish_loop,
}

-- The answers without any numbering: a failed append is its item's error, and the entries are dealt
-- out, in order, to the others.
abbrev pub merged : List AppendOutcome → List String → List BatchEntry → List (EntryResult File)
merged (err e ∷ outcomes) (base ∷ bases) entries =
    failed (plain_error e) ∷ merged outcomes bases entries
merged (ok offset ∷ outcomes) (base ∷ bases) (entry ∷ entries) =
    verdict file_success base entry ∷ merged outcomes bases entries
merged _ _ _ = []

abbrev pub result_without_wait : Option (EntryResult File) → Option (EntryResult File)
result_without_wait none = none
result_without_wait (some r) = some (without_wait r)

module _ {ℓ} {A : Type ℓ} where
  set_at-append :
      (xs : List A) (x y : A) (ys : List A) → set_at (length xs) x (xs ++ y ∷ ys) ≡ xs ++ x ∷ ys
  set_at-append [] x y ys = refl
  set_at-append (z ∷ xs) x y ys = ap (λ l. z ∷ l) (set_at-append xs x y ys)

  get_elem?-append :
      (xs : List A) (y : A) (ys : List A) → get_elem? (xs ++ y ∷ ys) (length xs) ≡ some y
  get_elem?-append [] y ys = refl
  get_elem?-append (z ∷ xs) y ys = get_elem?-append xs y ys

  length-snoc : (xs : List A) (y : A) → length (xs ++ y ∷ []) ≡ length xs + 1
  length-snoc xs y = length-append xs (y ∷ [])

module _ {B W : Type 0} (session : Session ApiError W) (env : Env Err W) (api : BatchApi W)
    (up : Uploads B W) where
  one_more :
      (before : Results) (r : Option (EntryResult File)) (rest : Results)
      → map result_without_wait (before ++ r ∷ []) ++ rest
        ≡ map result_without_wait before ++ result_without_wait r ∷ rest
  one_more before r rest =
      ap (λ l. l ++ rest) (map-append result_without_wait before (r ∷ []))
      ∙ append_assoc (map result_without_wait before) (result_without_wait r ∷ []) rest

  -- The loop from the item number i on: `before` and `done_bases` are those of the items before it.
  pub finish_loop-merged :
      (outcomes : List AppendOutcome) (before out : Results) (done_bases bases all : List String)
      (entries : List BatchEntry) (i : ℕ) (w : W)
      → all ≡ done_bases ++ bases
      → out ≡ before ++ map early_result outcomes
      → i ≡ length before
      → length done_bases ≡ length before
      → length bases ≡ length outcomes
      → length entries ≡ length (finish_idx i outcomes)
      → map result_without_wait
          (finish_loop session env api up all (finish_idx i outcomes) entries out w).0
        ≡ map result_without_wait before ++ map some (merged outcomes bases entries)
  unfolding finish_loop
  finish_loop-merged [] before out done_bases bases all entries i w a o k d b e =
      rw (o, append-nil before) (sym (append-nil (map result_without_wait before)))
  finish_loop-merged (r ∷ outcomes) before out done_bases [] all entries i w a o k d b e =
      absurd (omega arith)
  finish_loop-merged (err x ∷ outcomes) before out done_bases (base ∷ bases) all entries i w a o k d
        b e =
      let r = some (failed (plain_error x)) in
      finish_loop-merged outcomes (before ++ r ∷ []) out (done_bases ++ base ∷ []) bases all entries
        (i + 1) w (a ∙ sym (append_assoc done_bases (base ∷ []) bases))
        (o ∙ sym (append_assoc before (r ∷ []) (map early_result outcomes)))
        (omega (arith, length-snoc before r))
        (omega (arith, length-snoc before r, length-snoc done_bases base)) (omega arith) e
      ∙ one_more before r (map some (merged outcomes bases entries))
  finish_loop-merged (ok n ∷ outcomes) before out done_bases (base ∷ bases) all [] i w a o k d b e =
      absurd (omega arith)
  finish_loop-merged (ok n ∷ outcomes) before out done_bases (base ∷ bases) all (entry ∷ entries) i
        w a o k d b e =
      let given = get_or (get_elem? all i) "" in
      let found : given ≡ base =
        ap (λ l. get_or (get_elem? l i) "") a
        ∙ ap (λ j. get_or (get_elem? (done_bases ++ base ∷ bases) j) "") (k ∙ sym d)
        ∙ ap (λ q. get_or q "") (get_elem?-append done_bases base bases) in
      let (r, v) =
        entry_result session env.now file_success "UploadFilesBatchFinish" given entry w in
      let says : without_wait r ≡ verdict file_success base entry =
        entry_result-verdict session env.now file_success "UploadFilesBatchFinish" given entry w
        ∙ ap (λ g. verdict file_success g entry) found in
      let put : set_at i (some r) out ≡ (before ++ some r ∷ []) ++ map early_result outcomes =
        ap (set_at i (some r)) o
        ∙ ap (λ j. set_at j (some r) (before ++ none ∷ map early_result outcomes)) k
        ∙ set_at-append before (some r) none (map early_result outcomes)
        ∙ sym (append_assoc before (some r ∷ []) (map early_result outcomes)) in
      finish_loop-merged outcomes (before ++ some r ∷ []) (set_at i (some r) out)
        (done_bases ++ base ∷ []) bases all entries (i + 1) v
        (a ∙ sym (append_assoc done_bases (base ∷ []) bases)) put
        (omega (arith, length-snoc before (some r)))
        (omega (arith, length-snoc before (some r), length-snoc done_bases base)) (omega arith)
        (omega arith)
      ∙ one_more before (some r) (map some (merged outcomes bases entries))
      ∙ ap
          (λ q. map result_without_wait before ++ some q ∷ map some (merged outcomes bases entries))
          says
