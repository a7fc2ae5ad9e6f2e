-- ===== src/Tests/Answered.antt =====
-- The answers of the shelf, over the small platform.
use daemon_file_hosting.Base.{codes, arith}
use daemon_file_hosting.Base.Int.{pos}
use daemon_file_hosting.Protocol.{RequestHeader}
use daemon_file_hosting.Server.Download.{handle_download_request}
use daemon_file_hosting.Server.Store.{put}
use daemon_file_hosting.Server.Store.Downloads.{answer}
use daemon_file_hosting.Server.Store.Uploads.Accepting.{Holds}
use daemon_file_hosting.Exchange.Answered.{Sends, IsReply, download_is_answered}
use daemon_file_hosting.Tests.Platform.{pipe_KeepsMoving, copies}
use daemon_file_hosting.Tests.Shelf.{P, laws, request, owner, item, nothing, full, full-Holds}

download_is_answered_example :
    Sends P laws.stream pipe_KeepsMoving full (handle_download_request P (request 7) owner full).1 (
      IsReply P laws pipe_KeepsMoving
        (request 7)
        full
        (answer (put (codes "a.txt") item nothing) (codes "a.txt") (pos 7) owner))
    × Holds P laws
        (handle_download_request P (request 7) owner full).1
        (put (codes "a.txt") item nothing)
download_is_answered_example =
    download_is_answered P laws pipe_KeepsMoving (request 7) owner
      (put (codes "a.txt") item nothing) full (omega arith) full-Holds

-- An upload that names a recipient.
abbrev addressed : RequestHeader
addressed = record (request 0) { recipient = copies 64 b'a' }
