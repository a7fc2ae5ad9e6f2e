-- ===== src/Plain/Client/Received.antt =====
-- What a download of the older client leaves in the file.
use daemon_file_hosting.Base.{ℕ, ◌≡◌, Bool, true, ◌++◌, some, Bytes, length}
use daemon_file_hosting.Client.{LocalDisk}
use daemon_file_hosting.Client.Receive.{IsLocalStore}
use daemon_file_hosting.Plain.{Sockets}
use daemon_file_hosting.Plain.Delivery.{IsPlainStream}
use daemon_file_hosting.Plain.Client.{Result}

module _ (K : Sockets) (L : LocalDisk) (S : IsPlainStream K) (F : IsLocalStore L) where
  -- The loop has ended, and if it succeeded, exactly the next `missing` bytes are at the end of the
  -- file.
  abbrev pub Moved : ℕ → Bytes → Bytes → Bytes → Result K L → Type 0
  Moved missing path old all r =
      (ok : Bool) × (r.0 ≡ some ok)
      × (ok ≡ true
          → (text : Bytes) × (length text ≡ missing)
            × (all ≡ text ++ S.incoming r.1.0)
            × (F.contents r.1.1 path ≡ some (old ++ text)))
