-- ===== src/Server/Upload/Verified.antt =====
-- What an upload has checked before it changes anything.
use daemon_file_hosting.Base.{◌≡◌, sym, ◌∙◌, ◌⊎◌, inl, inr, ◌++◌, Bytes, length}
use daemon_file_hosting.Base.Int.{pos_part}
use daemon_file_hosting.External.{Platform}
use daemon_file_hosting.External.Laws.{IsStream}
use daemon_file_hosting.World.{World}
use daemon_file_hosting.Protocol.{RequestHeader}
use daemon_file_hosting.Hash.{compute_buffer_blake3}
use daemon_file_hosting.Transfer.Apart.{ssl_send_all-incoming}
use daemon_file_hosting.Server.Reply.{respond, respond_with, send}
use daemon_file_hosting.Server.Upload.{handle_upload_request}
use daemon_file_hosting.Server.Upload.Received.{receive_file-exact}
use daemon_file_hosting.Server.Upload.Guards.{
  IsAdmissible, Untouched, data_begin, handle_upload_request_verifies,
}

module _ (P : Platform) (S : IsStream P.tls) where
  -- The request was let in, and the bytes that come in next, as many as it announced, have the hash
  -- that it announced.
  pub record IsChecked (req : RequestHeader) (w : World P) : Type 0 where
    pub admissible : IsAdmissible w req
    pub text : Bytes
    pub rest : Bytes
    pub came : S.incoming w.conn ≡ text ++ rest
    pub complete : length text ≡ pos_part req.filesize
    pub hashed : compute_buffer_blake3 P.blake3 text ≡ req.file_hash

  data_begin-incoming :
      (req : RequestHeader) (w : World P) → S.incoming (data_begin P req w).conn ≡ S.incoming w.conn
  unfolding respond respond_with send
  data_begin-incoming req w = ssl_send_all-incoming P.tls S _ w.conn

  -- After an upload request the files and the database are as they were; or the request was let in
  -- and the next bytes to come in, exactly as many as it announced, none if that is negative, have
  -- the announced hash.
  pub upload_checks_text :
      (req : RequestHeader) (fingerprint : Bytes) (w : World P)
      → Untouched P w (handle_upload_request P req fingerprint w).1 ⊎ IsChecked req w
  upload_checks_text req fingerprint w = elim (handle_upload_request_verifies P req fingerprint w) [
    | inl same ↦ inl same
    | inr v ↦
        let (long, came) =
          receive_file-exact P S req.filesize v.text (data_begin P req w) v.arrived in
        inr (record {
          admissible = v.admissible;
          text = v.text;
          rest = _;
          came = sym (data_begin-incoming req w) ∙ came;
          complete = long;
          hashed = v.hashed;
        })
  ]
