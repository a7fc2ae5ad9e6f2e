-- ===== src/Tests/Fetched.antt =====
-- A download over the wide connection, from the shelf to the client's file.
use daemon_file_hosting.Base.{
  ◌++◌, [], ◌∷◌, some, none, Bytes, bytes_eq, codes, Bool, if◌then◌else◌,
}
use daemon_file_hosting.Base.Int.{pos}
use daemon_file_hosting.World.{World}
use daemon_file_hosting.Protocol.{RequestHeader}
use daemon_file_hosting.Path.{storage_path}
use daemon_file_hosting.Server.Upload.{metadata}
use daemon_file_hosting.Client.{encode_request, download_header, download_file_ssl}
use daemon_file_hosting.Tests.Platform.{Pipe, Files, copies, flip_all}
use daemon_file_hosting.Tests.Exchange.{local_disk}
use daemon_file_hosting.Tests.Store.{no_files, server_key}
use daemon_file_hosting.Tests.Shelf.{owner, greeting}
use daemon_file_hosting.Tests.Wide.{wide_tls, Q, junk}

-- The offset that happens to be on the client's stack is the length of its file.
abbrev stack : RequestHeader
stack = record junk { offset = pos 7 }

abbrev header : RequestHeader
header = download_header stack (codes "a.txt")

abbrev empty : World Q
empty = record {
  conn = record { sent = []; incoming = encode_request header };
  files = no_files;
  db = [];
  engine = 0;
  entropy = 5;
  heap = 0;
  time = 1;
  errno = 0;
  g_file_crypto = server_key;
}

-- The file and the document of the text are there.
abbrev full : World Q
full = record empty {
  files = λ path.
      if bytes_eq path (storage_path (codes "a.txt")) then some (flip_all greeting) else none;
  db = metadata (codes "a.txt") (pos 13) (copies 12 5) (copies 16 13) owner ∷ [];
}

-- The reply, from the seventh byte on.
abbrev reply : Bytes
reply = 0 ∷ copies 7 0 ++ (13 ∷ copies 7 0) ++ codes "server"

abbrev client : Pipe
client = record { sent = []; incoming = reply ++ [] }

abbrev seven : Files
seven path = some (codes "1234567")

abbrev fetched : Bool × (Pipe × Files)
fetched = download_file_ssl wide_tls local_disk stack (codes "a.txt") (codes "b") (client, seven)
