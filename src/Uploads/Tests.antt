-- ===== src/Uploads/Tests.antt =====
-- The theorems about uploads in a room that holds one file.
use lan_secure_file_system.Common.{some, [], ◌∷◌}
use lan_secure_file_system.World.{deleted, World, Runs}
use lan_secure_file_system.World.Samples.{populated}
use lan_secure_file_system.Files.{set_status}
use lan_secure_file_system.Uploads.{FileInfo}
use lan_secure_file_system.Uploads.Completion.{upload_complete, upload_failed}
use lan_secure_file_system.Uploads.Outcomes.{Completed, CompleteError, upload_complete-Runs}
use lan_secure_file_system.Uploads.Failures.{GivenUp, FailError, upload_failed-Runs}

abbrev new_content : FileInfo
new_content = record {
  original_name = 40;
  size_bytes = some 7;
  mime_type = 41;
  sha256_whole = 98 ∷ [];
}

upload_complete-Runs_example :
    Runs
      (upload_complete 9 (97 ∷ []) (some 4))
      populated
      (λ t q. Completed 9 (97 ∷ []) (some 4) populated q)
      (λ code q. CompleteError 9 (97 ∷ []) (some 4) populated q code)
upload_complete-Runs_example = upload_complete-Runs 9 (97 ∷ []) (some 4) populated

upload_failed-Runs_example :
    Runs
      (upload_failed 9 (some 4))
      populated
      (λ t q. GivenUp 9 (some 4) populated q)
      (λ code q. FailError 9 (some 4) populated q code)
upload_failed-Runs_example = upload_failed-Runs 9 (some 4) populated

-- The file after its uploader deleted it.
abbrev deleted_world : World
deleted_world = record populated { db = set_status 9 deleted populated.db }
