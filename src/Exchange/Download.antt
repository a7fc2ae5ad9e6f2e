-- ===== src/Exchange/Download.antt =====
-- The text on the server's shelf is the text in the client's file.
use daemon_file_hosting.Base.{◌≡◌, ◌++◌, Bytes}
use daemon_file_hosting.External.{Platform}
use daemon_file_hosting.World.{World}
use daemon_file_hosting.Protocol.{RequestHeader}
use daemon_file_hosting.Transfer.Sent.{KeepsMoving}
use daemon_file_hosting.Server.Download.{handle_download_request}
use daemon_file_hosting.Server.Store.Uploads.Accepting.{UploadLaws}

module _ (P : Platform) (A : UploadLaws P) (K : KeepsMoving P.tls) where
  abbrev pub IsReply : RequestHeader → Bytes → World P → Bytes → Type 0
  IsReply req who w reply =
      A.stream.sent (handle_download_request P req who w).1.conn ≡ A.stream.sent w.conn ++ reply
