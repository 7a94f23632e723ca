-- ===== src/Adapters/Calls/Providers.antt =====
-- The three adapters that run their calls in withClassifiedRetry.
use sylos_fs.Base.{true, false}
use sylos_fs.Adapters.Classify.{ApiError, GoogleError}
use sylos_fs.Adapters.Classify.Box.{classify as classify_box}
use sylos_fs.Adapters.Classify.Dropbox.{classify as classify_dropbox}
use sylos_fs.Adapters.Classify.Drive.{classify as classify_drive, header_retry_after}
use sylos_fs.Adapters.Calls.{Provider}

unfoldable pub box_provider : Provider ApiError
unfolding classify_box
box_provider = record {
  classify = classify_box;
  status = λ api. api.status;
  api_retry_after = λ api. api.retry_after;
  tracked = false;
}

unfoldable pub dropbox_provider : Provider ApiError
unfolding classify_dropbox
dropbox_provider = record {
  classify = classify_dropbox;
  status = λ api. api.status;
  api_retry_after = λ api. api.retry_after;
  tracked = false;
}

unfoldable pub drive_provider : Provider GoogleError
unfolding classify_drive
drive_provider = record {
  classify = classify_drive;
  status = λ e. e.code;
  api_retry_after = λ e. header_retry_after e;
  tracked = true;
}
