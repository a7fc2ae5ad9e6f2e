-- ===== src/Proc/Frame.antt =====
-- What an event on a proc map leaves alone: the files, the connection and the key.
use daemon_file_hosting.Base.{◌≡◌, refl, ◌∙◌, Bytes}
use daemon_file_hosting.External.{Platform}
use daemon_file_hosting.World.{World}
use daemon_file_hosting.Proc.{append_proc_event}
use daemon_file_hosting.Proc.Preserve.{IsKeptByCalls, append_proc_event-kept}

module _ (P : Platform) where
  -- Everything but the database, the heap, the clock and `errno` is the same.
  pub record Kept (w w' : World P) : Type 0 where
    pub files_same : w'.files ≡ w.files
    pub conn_same : w'.conn ≡ w.conn
    pub crypto_same : w'.g_file_crypto ≡ w.g_file_crypto

  again :
      (w v v' : World P)
      → Kept w v
      → v'.files ≡ v.files
      → v'.conn ≡ v.conn
      → v'.g_file_crypto ≡ v.g_file_crypto
      → Kept w v'
  again w v v' k f c g = record {
    files_same = f ∙ k.files_same;
    conn_same = c ∙ k.conn_same;
    crypto_same = g ∙ k.crypto_same;
  }

  Kept-IsKeptByCalls : (w : World P) → IsKeptByCalls P (Kept w)
  Kept-IsKeptByCalls w = record {
    by_collection = λ v k. again w v _ k refl refl refl;
    by_insertion = λ id f e v k. again w v _ k refl refl refl;
    by_update = λ id path event v k. again w v _ k refl refl refl;
    by_malloc = λ v heap k. again w v _ k refl refl refl;
    by_clock = λ v t k. again w v _ k refl refl refl;
    by_strtol = λ keys v k. again w v _ k refl refl refl;
  }

  pub append_proc_event-Kept :
      (id change_type status : Bytes) (w : World P)
      → Kept w (append_proc_event P id change_type status w).1
  append_proc_event-Kept id change_type status w =
      append_proc_event-kept P (Kept w) (Kept-IsKeptByCalls w) id change_type status w
        (record { files_same = refl; conn_same = refl; crypto_same = refl })
