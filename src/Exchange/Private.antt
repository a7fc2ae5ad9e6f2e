-- ===== src/Exchange/Private.antt =====
-- Who gets an uploaded text.
use daemon_file_hosting.Base.{◌≡◌, ◌⊎◌}
use daemon_file_hosting.External.{Platform}
use daemon_file_hosting.World.{World}
use daemon_file_hosting.Protocol.{resp_file_not_found, resp_permission_denied}
use daemon_file_hosting.Server.Reply.{respond}
use daemon_file_hosting.Server.Store.Downloads.{Answer, missing, denied}
use daemon_file_hosting.Server.Store.Uploads.Accepting.{UploadLaws}

-- No text is given.
data IsRefusal : Answer → Type 0 where
  is_missing : IsRefusal missing
  is_denied : IsRefusal denied

module _ (P : Platform) (A : UploadLaws P) where
  -- One header, which says that there is no such file or that it may not be read; nothing else.
  abbrev pub IsKeptFrom : World P → Unit {0} × World P → Type 0
  IsKeptFrom w r =
      (r ≡ (tt, (respond P resp_file_not_found w).1))
      ⊎ (r ≡ (tt, (respond P resp_permission_denied w).1))
