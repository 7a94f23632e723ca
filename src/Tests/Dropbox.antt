-- ===== src/Tests/Dropbox.antt =====
-- Dropbox's paths, sessions, batches and writer at concrete inputs.
use sylos_fs.Base.{
  ℕ, ◌+◌, ◌≤◌, pos, String, List, [], ◌∷◌, true, false, Option, none, some, Answer, ok, map, ◌≡◌,
  refl, arith, ltb, if◌then◌else◌,
}
use sylos_fs.Base.Text.{to_lower, trim_space, contains_any}
use sylos_fs.Base.Dict.{lookup}
use sylos_fs.Types.Listing.{Folder, File}
use sylos_fs.Types.Locations.{normalize_location_path, logical_parent_from_create_metadata}
use sylos_fs.Credentials.Retry.{Env, attempt}
use sylos_fs.Credentials.ClassifiedRetry.{do_with_classified_retry}
use sylos_fs.Adapters.Classify.{ApiError, is_auth_failure}
use sylos_fs.Adapters.Calls.{Session, config, with_classified_retry}
use sylos_fs.Adapters.Calls.Results.{retried}
use sylos_fs.Adapters.Dropbox.Paths.{
  DropboxFs, FileMetadata, wire, create_api_path, create_under_namespace_root, dropbox_path_ref,
  dropbox_child_under_parent,
}
use sylos_fs.Adapters.Dropbox.Paths.Pending.{
  create_file, new_dropbox_writer, resolve_upload_path, upload_to, at_location,
  resolve_upload_path-create_file,
}
use sylos_fs.Adapters.Dropbox.Sessions.{Body, append_loop, append_upload_session}
use sylos_fs.Adapters.Dropbox.Sessions.Server.{Server}
use sylos_fs.Adapters.Dropbox.Sessions.Append.{Holds, append_upload_session-Holds}
use sylos_fs.Adapters.Dropbox.Sessions.Sent.{sound_body, server}
use sylos_fs.Adapters.Dropbox.Batch.{
  Err, errorf, BatchApi, BatchEntry, BatchLaunch, alone, nested, untagged, absent, malformed,
  decoded, entries, dropbox_batch_max_entries, dropbox_upload_batch_max_entries,
  batch_poll_interval, batch_poll_max_wait, poll_loop, poll_rounds, resolve_batch_entries,
  create_folder_batch_entries,
}
use sylos_fs.Adapters.Dropbox.Batch.Entries.{
  decode_batch_success_folder, decode_batch_success_file, map_batch_entry_failure, EntryResult,
  done, failed, plain_error, rate_limited, batch_entry_failure_error, to_folder, to_file,
  folder_success,
}
use sylos_fs.Adapters.Dropbox.Batch.Items.{
  CreateFolderBatchItem, base_path_of, create_folder_batch, folder_paths,
}
use sylos_fs.Adapters.Dropbox.Batch.Mapping.{Mapped, create_folder_batch-Mapped}
use sylos_fs.Adapters.Dropbox.Batch.Upload.{UploadItem, Uploads, bodies, upload_files_batch}
use sylos_fs.Adapters.Dropbox.Batch.Uploaded.{Uploaded, upload_files_batch-Uploaded}
use sylos_fs.Adapters.Dropbox.Batch.Closing.{upload_files_batch-closes}
use sylos_fs.Adapters.Dropbox.Streaming.{DropboxWriter, WriterError, open_write}
use sylos_fs.Adapters.Dropbox.Streaming.Truncated.{
  calm_upload, storing, stream_upload-truncates, calm_close, write_all, close-stores,
}
use sylos_fs.Adapters.Dropbox.Batch.Polling.{poll_loop-some}

abbrev root_folder : Folder
root_folder = record {
  service_id = "root";
  parent_id = "";
  parent_path = "";
  display_name = "My Dropbox";
  location_path = "/";
  last_updated = "";
  depth_level = pos 0;
  type = "user_root";
}

abbrev dropbox : DropboxFs
dropbox = record {
  root = root_folder;
  ctx = record { root_type = "user_root"; namespace_id = "12"; root_path = ""; folder_ref = "" };
}

wire_paths :
    (create_api_path dropbox "root" " a.txt " ≡ wire "/a.txt")
    × (create_api_path dropbox "77" "a.txt" ≡ wire "id:77/a.txt")
unfolding create_api_path create_under_namespace_root dropbox_child_under_parent dropbox_path_ref
    trim_space contains_any
wire_paths = (refl, refl)

resolve_upload_path-create_file_example :
    (p : String) × (create_api_path dropbox "77" "a.txt" ≡ wire p)
    × (resolve_upload_path dropbox (new_dropbox_writer "pending-loc:id:77/a.txt") ≡ upload_to p)
unfolding create_file create_under_namespace_root dropbox_child_under_parent dropbox_path_ref
    trim_space contains_any
resolve_upload_path-create_file_example =
    resolve_upload_path-create_file dropbox "77" "a.txt" (pos 3) [] "now" _ refl

abbrev refusal : Err
refusal = errorf "incorrect_offset"

abbrev three : Body ℕ Err
three = sound_body refusal 2 (1 ∷ 2 ∷ 3 ∷ [])

append_upload_session-Holds_example :
    Holds {B = ℕ} refusal 2 (1 ∷ 2 ∷ 3 ∷ []) 3 (server refusal 2 (1 ∷ 2 ∷ 3 ∷ []) true none [])
    × (three.broken ≡ none)
unfolding append_upload_session
append_upload_session-Holds_example =
    append_upload_session-Holds refusal 2 "s" three (sound_body refusal 2 [])
      (server refusal 2 [] false none []) _ 3 (omega arith) refl refl refl

-- A world that is a clock.
abbrev session : Session ApiError ℕ
session = record {
  degradation = λ t. none;
  put_degradation = λ d t. t;
  clear_access_token = λ t. t;
  refresh_access_token = λ t. (none, t);
  active_workers = λ t. pos 1;
}

abbrev env : Env Err ℕ
env = record {
  ctx_err = λ t. none;
  op = λ t. (none, t);
  sleep_ctx = λ d t. (none, t);
  now = λ t. t;
  tracker = λ t. none;
  put_tracker = λ k t. t;
  is_needs_refresh = λ e. e.needs_refresh;
}

abbrev folder_metadata : FileMetadata
folder_metadata = record {
  tag = "folder";
  id = "id:5";
  name = "a";
  path_display = "/a";
  path_lower = "/a";
  size = 0;
  client_modified = "";
  server_modified = "";
  shared_folder_id = "";
}

abbrev made : BatchEntry
made = record {
  tag = "success";
  failure = "";
  failure_tags = untagged;
  metadata = decoded folder_metadata;
  flat = decoded folder_metadata;
}

abbrev contended : BatchEntry
contended = record {
  tag = "failure";
  failure = "{}";
  failure_tags = nested "path" (alone "too_many_write_operations");
  metadata = absent;
  flat = malformed;
}

abbrev async : BatchLaunch
async = record { tag = "async_job_id"; async_job_id = "j1"; entries = entries [] }

-- A job that is complete after a second.
abbrev api : BatchApi ℕ
api = record {
  launch_create_folder_batch = λ paths t. (ok async, t);
  launch_delete_batch = λ paths t. (ok async, t);
  launch_finish_batch = λ args t. (ok async, t);
  start_batch = λ n t. (ok ("s1" ∷ "s2" ∷ []), t);
  check = λ endpoint job t. (
    ok (record {
      tag = if ltb t 1000000000 then "in_progress" else "complete";
      entries = entries (some made ∷ some contended ∷ []);
    }),
    t,
  );
  ctx_err = λ t. none;
  now = λ t. t;
  poll_wait = λ t. (ok tt, t + batch_poll_interval);
}

poll_loop-some_example :
    (r : Answer Err (List BatchEntry) × ℕ) × (poll_loop api
        (poll_rounds api)
        "check"
        "j1"
        (0 + batch_poll_max_wait)
        0
      ≡ some r)
poll_loop-some_example =
    poll_loop-some api "check" "j1" 0
      (record { checks = λ endpoint job t. omega arith; waits = λ t. omega arith })

abbrev two_folders : List CreateFolderBatchItem
two_folders =
    (record { parent_id = "root"; name = "a"; metadata = [] })
    ∷ (record { parent_id = "77"; name = "b"; metadata = [] })
    ∷ []

abbrev folder_results : List (EntryResult Folder)
folder_results =
    done (to_folder "/" folder_metadata)
    ∷ failed (rate_limited (pos 1250000000) (batch_entry_failure_error contended))
    ∷ []

create_folder_batch-Mapped_example :
    (2 ≤ dropbox_batch_max_entries)
    × ((paths : List String) × (folder_paths dropbox 0 two_folders ≡ ok paths)
        × Mapped session env api folder_success
            (create_folder_batch_entries api paths)
            (map (λ item. base_path_of dropbox item.metadata) two_folders)
            folder_results)
unfolding create_folder_batch poll_loop retried with_classified_retry config
    do_with_classified_retry create_under_namespace_root dropbox_child_under_parent dropbox_path_ref
    trim_space contains_any logical_parent_from_create_metadata lookup normalize_location_path
    create_api_path attempt resolve_batch_entries decode_batch_success_folder to_lower
create_folder_batch-Mapped_example =
    create_folder_batch-Mapped session env api dropbox two_folders folder_results 0 1000000000
      (omega arith) refl

-- Appends to a server of which only the offsets matter here.
abbrev uploads : Uploads ℕ ℕ
uploads = record {
  client = λ t. none;
  content = record {
    append = λ id offset chunk last t. (ok tt, t);
    start = λ t. (ok "s", t);
    finish = λ id offset path t. (ok "id:5", t);
    upload = λ path bytes t. (ok "id:5", t);
  };
  chunk_size = 2;
}

abbrev broken_read : Err
broken_read = errorf "read"

-- The first body cannot be read to its end.
abbrev three_files : List (UploadItem ℕ)
three_files =
    (record {
      parent_id = "root";
      name = "a";
      metadata = [];
      body = some (record { bytes = 1 ∷ []; broken = some broken_read });
    })
    ∷ (record {
      parent_id = "root";
      name = "b";
      metadata = [];
      body = some (record { bytes = 1 ∷ 2 ∷ 3 ∷ []; broken = none });
    })
    ∷ (record { parent_id = "77"; name = "c"; metadata = []; body = none })
    ∷ []

abbrev upload_api : BatchApi ℕ
upload_api = record api { start_batch = λ n t. (ok ("s1" ∷ "s2" ∷ "s3" ∷ []), t) }

abbrev file_results : List (Option (EntryResult File))
file_results =
    some (failed (plain_error broken_read))
    ∷ some (done (to_file "/" folder_metadata))
    ∷ some (failed (rate_limited (pos 1250000000) (batch_entry_failure_error contended)))
    ∷ []

upload_files_batch-Uploaded_example :
    (3 ≤ dropbox_upload_batch_max_entries)
    × (0 ∷ 1 ∷ [] ≡ bodies 0 three_files)
    × Uploaded session env upload_api uploads dropbox three_files file_results
unfolding upload_files_batch poll_loop retried with_classified_retry config do_with_classified_retry
    create_under_namespace_root dropbox_child_under_parent dropbox_path_ref trim_space contains_any
    logical_parent_from_create_metadata lookup normalize_location_path append_loop create_api_path
    attempt resolve_batch_entries decode_batch_success_file map_batch_entry_failure to_lower
upload_files_batch-Uploaded_example =
    upload_files_batch-Uploaded session env upload_api uploads dropbox three_files file_results
      (0 ∷ 1 ∷ []) 0 1000000000 (omega arith) refl

upload_files_batch-closes_example :
    (upload_files_batch session env upload_api uploads dropbox three_files 0).1
    ≡ (if ltb dropbox_upload_batch_max_entries 3 then [] else bodies 0 three_files)
upload_files_batch-closes_example =
    upload_files_batch-closes session env upload_api uploads dropbox three_files 0

abbrev expired : Err
expired = record {
  needs_refresh = false;
  api = some (record { status = 401; code = "expired_access_token"; retry_after = pos 0 });
  message = "expired";
}

abbrev expiring : Server ℕ Err
expiring = server refusal 2 [] false none (none ∷ some expired ∷ [])

stream_upload-truncates_example : calm_upload 2 dropbox (at_location "/a") (expiring, three) ≡ (
  ok "id:stored",
  (storing 2 dropbox (at_location "/a") "/a" (3 ∷ []), sound_body refusal 2 []),
)
unfolding resolve_upload_path is_auth_failure
stream_upload-truncates_example =
    stream_upload-truncates 2 dropbox (at_location "/a") "/a" expiring (1 ∷ 2 ∷ 3 ∷ []) expired refl
      (omega arith) (omega arith) refl refl

abbrev closing : Option WriterError × (DropboxWriter ℕ × Server ℕ Err)
closing =
    calm_close 2 dropbox (at_location "/a")
      (write_all 2 dropbox (at_location "/a") ((1 ∷ 2 ∷ []) ∷ [] ∷ (3 ∷ []) ∷ [])
        (open_write (at_location "/a")))
      (server refusal 2 [] false none [])

close-stores_example :
    (closing.0 ≡ none)
    × (closing.1.0.committed_id ≡ "id:stored")
    × (closing.1.1.stored ≡ some ("/a", 1 ∷ 2 ∷ 3 ∷ []))
unfolding resolve_upload_path
close-stores_example =
    close-stores 2 dropbox (at_location "/a") "/a" (server refusal 2 [] false none [])
      ((1 ∷ 2 ∷ []) ∷ [] ∷ (3 ∷ []) ∷ []) refl (omega arith) refl
