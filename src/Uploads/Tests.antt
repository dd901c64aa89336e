-- ===== src/Uploads/Tests.antt =====
-- A run of the page of transfers with two files.
use tmask_tt.Base.{◌≡◌, ◌⊎◌, ltb, false, none, some, [], ◌∷◌}
use tmask_tt.Worker.{ok}
use tmask_tt.Accounts.{User, role_level, level_of, operator}
use tmask_tt.Accounts.Tests.{ann}
use tmask_tt.Webhooks.Payload.{sftp}
use tmask_tt.Scheduler.{filled}
use tmask_tt.Uploads.{TransferForm, Settings, Site, UploadState, transfer_create}
use tmask_tt.Uploads.Created.{Effect, transfer_create_adds}

abbrev settings : Settings
settings = record { transfers_dir = "/data"; max_upload_bytes = 100 }

abbrev site : Site
site = record {
  new_pk = λ jobs. 7;
  write = λ written path. none;
  send_task = λ sent pk passphrase. ok "task";
  send_preview = λ connection source destination passphrase. ok "preview";
}

abbrev batch : TransferForm
batch = record {
  connection = 3;
  protocol = sftp;
  destination_path = "/in/";
  uploads = record { name = "a.txt"; size = 5 } ∷ record { name = "b.txt"; size = 9 } ∷ [];
  gpg_passphrase = "";
}

abbrev nothing : UploadState
nothing = record { jobs = []; sent = []; written = [] }

transfer_create_adds_example :
    let after = (transfer_create site settings 5 (some ann) (filled batch) nothing).1 in
    (after.jobs ≡ [])
    ⊎ ((u : User) × (some ann ≡ some u)
        × (ltb (role_level u) (level_of operator) ≡ false)
        × Effect settings u (filled batch) nothing after)
transfer_create_adds_example =
    transfer_create_adds site settings 5 (some ann) (filled batch) nothing
