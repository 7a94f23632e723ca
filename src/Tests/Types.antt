-- ===== src/Tests/Types.antt =====
-- The types component at concrete listings, histories of signals and occurrences.
use sylos_fs.Base.{ℕ, ◌≤◌, ◌<◌, pos, List, [], ◌∷◌, true, Option, some, ◌≡◌, ◌↔◌, arith}
use sylos_fs.Types.Listing.{Folder, File, ListResult, entries, ListPage}
use sylos_fs.Types.Listing.Pager.{new_list_pager}
use sylos_fs.Types.Listing.Pager.Drain.{drain, drain-new_list_pager}
use sylos_fs.Types.Degradation.{
  FsDegradationKind, FsDegradationSignal, FsDegradationState, new_fs_degradation_state,
  max_throttle_backoff, schedule_throttle_backoff,
}
use sylos_fs.Types.Degradation.Backoff.{schedule_throttle_backoff_bounds}
use sylos_fs.Types.Degradation.Signals.{Call}
use sylos_fs.Types.Ambiguous.{
  AmbiguousTrackerConfig, new_ambiguous_error_tracker, ambiguous_key, suspected_throttle,
}
use sylos_fs.Types.Ambiguous.Counters.{Occurrence, observe}
use sylos_fs.Types.Ambiguous.Promotion.{Promoted, suspected_throttle_iff}

abbrev docs : Folder
docs = record {
  service_id = "d";
  parent_id = "root";
  parent_path = "/";
  display_name = "docs";
  location_path = "/docs";
  last_updated = "";
  depth_level = pos 1;
  type = "folder";
}

abbrev note : File
note = record {
  service_id = "n";
  parent_id = "root";
  parent_path = "/";
  display_name = "note";
  location_path = "/note";
  last_updated = "";
  depth_level = pos 1;
  size = pos 3;
  type = "file";
}

abbrev listing : ListResult
listing = record { folders = docs ∷ docs ∷ []; files = note ∷ [] }

drain-new_list_pager_example :
    drain 4 (new_list_pager listing (pos 2)) ≡ entries listing.folders listing.files
drain-new_list_pager_example = drain-new_list_pager listing (pos 2) 4 (omega arith)

abbrev first_page : ListPage
first_page = record {
  folders = docs ∷ docs ∷ [];
  files = [];
  total = 3;
  page = 0;
  page_size = 2;
  has_more = true;
}

abbrev throttled : Option FsDegradationState
throttled = some (record new_fs_degradation_state { throttle_streak = 9 })

schedule_throttle_backoff_bounds_example :
    (1250000000 ≤ (schedule_throttle_backoff throttled).0)
    × ((schedule_throttle_backoff throttled).0 ≤ 32250000000)
    × ((schedule_throttle_backoff throttled).0 < max_throttle_backoff)
schedule_throttle_backoff_bounds_example = schedule_throttle_backoff_bounds throttled

abbrev limited : FsDegradationSignal
limited = record {
  kind = FsDegradationKind.rate_limit;
  retry_after = pos 50;
  operation = "ListChildren";
  at = 100;
}

abbrev history : List Call
history = Call.records 90 limited ∷ Call.schedules ∷ Call.takes ∷ Call.records 95 limited ∷ []

abbrev defaults : AmbiguousTrackerConfig
defaults = record {
  min_samples = pos 0;
  burst_count = pos 0;
  burst_window = pos 0;
  high_worker_floor = pos 0;
}

abbrev seen : ℕ → Occurrence
seen t = record { operation = "op"; error_code = "EIO"; worker_count = pos 8; at = t; now = t }

abbrev occurrences : List Occurrence
occurrences = seen 10 ∷ seen 20 ∷ seen 30 ∷ seen 40 ∷ []

suspected_throttle_iff_example :
    let t = new_ambiguous_error_tracker defaults in
    (suspected_throttle "op" "EIO" (observe occurrences (some t)) ≡ true)
    ↔ Promoted t (ambiguous_key "op" "EIO") occurrences
suspected_throttle_iff_example = suspected_throttle_iff defaults occurrences "op" "EIO"
