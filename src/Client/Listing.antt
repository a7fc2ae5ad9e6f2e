-- ===== src/Client/Listing.antt =====
-- `list_files_ssl` of src/client/client.c.
use daemon_file_hosting.Base.{
  ℕ, zero, suc, ◌+◌, ◌-◌, Bool, true, false, ◌∷◌, ◌++◌, none, some, Bytes, length, drop, ltb,
}
use daemon_file_hosting.Base.Int.{ℤ, pos, negsuc}
use daemon_file_hosting.External.{Tls}
use daemon_file_hosting.Protocol.{RequestHeader, cmd_list}
use daemon_file_hosting.Transfer.{arrived}
use daemon_file_hosting.Client.{LocalDisk, piece_size, ask}

module _ (T : Tls) where
  -- The connection, and what `fwrite` has written to the standard output; whether it has is not
  -- tested. The messages around the list are left aside.
  abbrev pub Shown : Type 0
  Shown = T.Conn × Bytes

  -- The loop with `total` received. Each round takes at least one byte.
  unfoldable pub list_loop : ℕ → ℕ → ℕ → Shown → Bool × Shown
  list_loop zero size total s = (false, s)
  list_loop (suc fuel) size total (c, out) = elim (ltb total size) [
    | false ↦ (true, (c, out))
    | true ↦
        let r = T.ssl_read c (pos (piece_size (size - total))) in
        elim (arrived r.0) [
          | none ↦ (false, (r.1, out))
          | some piece ↦ list_loop fuel size (total + length piece) (r.1, out ++ piece)
        ]
  ]

  -- From the test of the announced length on; without one there are no files, and that is no error.
  unfoldable pub show_list : ℤ → Shown → Bool × Shown
  unfolding list_loop
  show_list (pos zero) s = (true, s)
  show_list (negsuc n) s = (true, s)
  show_list (pos (suc n)) s = list_loop (suc n + 1) (suc n) 0 s

  module _ (L : LocalDisk) where
    -- What the stack holds in the fields that the code does not set is `junk`.
    unfoldable pub list_files_ssl : RequestHeader → Shown → Bool × Shown
    unfolding show_list
    list_files_ssl junk (c, out) =
        let header : RequestHeader = record junk {
          command = cmd_list;
          filename = 0 ∷ drop 1 junk.filename;
          filesize = pos 0;
        } in
        let r = ask T L header c in
        elim r.0 [ none ↦ (false, (r.1, out)) | some size ↦ show_list size (r.1, out) ]
