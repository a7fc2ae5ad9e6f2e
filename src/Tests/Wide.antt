-- ===== src/Tests/Wide.antt =====
-- A connection that carries whatever a call asks for, and an upload over it from end to end.
use daemon_file_hosting.Base.{
  ℕ, suc, ◌≤◌, ◌<◌, ◌≡◌, refl, sym, ◌∙◌, ap, true, [], ◌++◌, some, Bytes, codes, length, take, drop,
  take-append-drop, length-take, append-nil, append_assoc, c_string, arith,
}
use daemon_file_hosting.Base.Int.{ℤ, pos, pos_part, size_to_int}
use daemon_file_hosting.External.{Tls, Blake3, Platform}
use daemon_file_hosting.External.Laws.{IsStream, IsStreaming}
use daemon_file_hosting.World.{World}
use daemon_file_hosting.Protocol.{RequestHeader}
use daemon_file_hosting.Hash.{compute_file_blake3}
use daemon_file_hosting.Path.{is_unsafe}
use daemon_file_hosting.Transfer.{ssl_send_all, ssl_recv_all}
use daemon_file_hosting.Transfer.Sent.{KeepsMoving}
use daemon_file_hosting.Transfer.Received.{KeepsComing}
use daemon_file_hosting.Client.{
  encode_request, upload_header, upload_file_ssl, filename_field, zeros,
}
use daemon_file_hosting.Client.Header.{IsHeader}
use daemon_file_hosting.Server.Upload.{is_bad_recipient}
use daemon_file_hosting.Server.Upload.Guards.{IsAdmissible}
use daemon_file_hosting.Server.Session.{read_request, decode_request, dispatch, command_of}
use daemon_file_hosting.Server.Store.{put}
use daemon_file_hosting.Server.Store.Uploads.Accepting.{UploadLaws, Holds}
use daemon_file_hosting.Server.Store.Uploads.Success.{NothingFails}
use daemon_file_hosting.Exchange.Upload.{uploaded_text_is_held}
use daemon_file_hosting.Tests.Platform.{
  Pipe, Files, pipe_tls, progress-some, progress-none, arrived-some, arrived-none, length-zero,
  take-length-take, copies, platform, first_bytes,
}
use daemon_file_hosting.Tests.Exchange.{local_disk}
use daemon_file_hosting.Tests.Store.{no_files, server_key}
use daemon_file_hosting.Tests.Shelf.{
  name_IsDocStore, name_mongo, laws, nothing, owner, greeting, flip_Encrypts,
}

abbrev pub wide_tls : Tls
wide_tls = record pipe_tls {
  ssl_write = λ c buf num.
      let part = take (pos_part num) buf in (pos (length part), record c { sent = c.sent ++ part });
  ssl_read = λ c num. (
    some (take (pos_part num) c.incoming),
    record c { incoming = drop (pos_part num) c.incoming },
  );
}

pub length-part : (num : ℤ) (n : ℕ) (s : Bytes) → num ≡ pos n → length (take (pos_part num) s) ≤ n
length-part num n s e = rw e (omega (arith, length-take n s))

unfoldable pub wide_IsStream : IsStream wide_tls
wide_IsStream = record {
  sent = λ c. c.sent;
  incoming = λ c. c.incoming;
  write_some = λ c buf n k num e h p.
      let k_is : length (take (pos_part num) buf) ≡ k = progress-some _ k p in
      (
        rw⁻¹ k_is (length-part num n buf e),
        ap (λ t. c.sent ++ t)
            (sym (take-length-take (pos_part num) buf) ∙ ap (λ j. take j buf) k_is),
      );
  write_none = λ c buf num p.
      ap (λ t. c.sent ++ t) (length-zero (take (pos_part num) buf) (progress-none _ p))
      ∙ append-nil c.sent;
  read_some = λ c n s num e p.
      let s_is : take (pos_part num) c.incoming ≡ s = arrived-some _ s p in
      (
        rw⁻¹ s_is (length-part num n c.incoming e),
        sym (take-append-drop (pos_part num) c.incoming)
            ∙ ap (λ t. t ++ drop (pos_part num) c.incoming) s_is,
      );
  write-incoming = λ c buf num. refl;
  read-sent = λ c num. refl;
}

part-pos :
    (k : ℕ) (num : ℤ) (s : Bytes)
    → num ≡ pos (suc k)
    → 0 < length s
    → 0 < length (take (pos_part num) s)
part-pos k num s e some_bytes = rw e (omega (arith, length-take (suc k) s))

pub wide_KeepsMoving : KeepsMoving wide_tls
wide_KeepsMoving = record {
  write_moves = λ c buf k num e fits stop.
      let some_bytes = part-pos k num buf e (omega arith) in
      let no_bytes = progress-none _ stop in absurd (omega (arith, some_bytes, no_bytes));
}

wide_KeepsComing : KeepsComing wide_tls wide_IsStream
unfolding wide_IsStream
wide_KeepsComing = record {
  read_moves = λ c k num e there stop.
      let some_bytes = part-pos k num c.incoming e there in
      let no_bytes = arrived-none _ stop in absurd (omega (arith, some_bytes, no_bytes));
}

-- A hash of as many bytes as are asked for.
abbrev padded_bytes : Blake3
padded_bytes = record first_bytes { hasher_finalize = λ h n. take n (h ++ zeros n) }

padded_bytes-IsStreaming : IsStreaming padded_bytes
padded_bytes-IsStreaming = record {
  update-nil = λ h. append-nil h;
  update-append = λ h a b. append_assoc h a b;
}

abbrev pub Q : Platform
Q = record (platform name_mongo) { tls = wide_tls; blake3 = padded_bytes }

unfoldable pub wide_laws : UploadLaws Q
unfolding laws wide_IsStream
wide_laws = record {
  gcm = laws.gcm;
  files = laws.files;
  docs = laws.docs;
  others = laws.others;
  stream = wide_IsStream;
  random = laws.random;
  closing = laws.closing;
}

nothing_fails : NothingFails Q wide_laws
unfolding wide_laws
nothing_fails = record {
  moving = wide_KeepsMoving;
  coming = wide_KeepsComing;
  malloc_ok = λ h n. refl;
  rand_bytes_ok = λ e n lost. cc lost;
  encrypts = flip_Encrypts;
  fopen_ok = λ f path. refl;
  fwrite_ok = λ f path text. refl;
  insert_ok = λ db name iv tag o size. refl;
}

-- What the client's stack holds.
abbrev pub junk : RequestHeader
junk = record {
  command = pos 9;
  filename = copies 256 1;
  filesize = pos 9;
  offset = pos 9;
  flags = 9;
  file_hash = copies 32 9;
  recipient = copies 65 9;
}

abbrev client_files : Files
client_files path = some greeting

-- The client, with the two replies that it is to get.
abbrev client : Pipe
client = record { sent = []; incoming = zeros 32 }

abbrev header : RequestHeader
header = upload_header wide_tls local_disk padded_bytes junk 13 greeting (codes "a.txt") []

abbrev server : World Q
server = record {
  conn = record { sent = []; incoming = encode_request header ++ greeting };
  files = no_files;
  db = [];
  engine = 0;
  entropy = 5;
  heap = 0;
  time = 1;
  errno = 0;
  g_file_crypto = server_key;
}

header-IsHeader : IsHeader header
unfolding upload_header filename_field compute_file_blake3
header-IsHeader = record {
  command_low = omega arith;
  command_high = omega arith;
  filename_length = refl;
  filesize_low = omega arith;
  filesize_high = omega arith;
  offset_low = omega arith;
  offset_high = omega arith;
  flags_fit = omega arith;
  hash_length = refl;
  recipient_length = refl;
}

reported :
    (upload_file_ssl wide_tls local_disk padded_bytes junk
      (codes "b")
      (codes "a.txt")
      []
      client_files
      client).0
    ≡ true
unfolding upload_file_ssl ssl_send_all compute_file_blake3 size_to_int ssl_recv_all
reported = refl

gone :
    (upload_file_ssl wide_tls local_disk padded_bytes junk
      (codes "b")
      (codes "a.txt")
      []
      client_files
      client).1.sent
    ≡ encode_request header ++ greeting
unfolding upload_file_ssl ssl_send_all compute_file_blake3 size_to_int ssl_recv_all
gone = refl

let_in : IsAdmissible server header
unfolding upload_header is_unsafe is_bad_recipient
let_in = record { ready = refl; safe = refl; addressed = refl }

short_name : length (c_string header.filename) < 256
unfolding upload_header filename_field
short_name = omega arith

server-Holds : Holds Q wide_laws server nothing
unfolding wide_laws name_IsDocStore
server-Holds = record { held = λ name item n e. cc e; free = λ name n e. refl }

was_read : (read_request Q server).0 ≡ some header
unfolding read_request decode_request encode_request upload_header compute_file_blake3
was_read = refl

uploaded_text_is_held_example :
    Holds Q wide_laws
      (dispatch Q (command_of header.command) header owner (read_request Q server).1).1
      (put (c_string header.filename) (record { owner = owner; text = greeting }) nothing)
unfolding wide_laws wide_IsStream
uploaded_text_is_held_example =
    uploaded_text_is_held Q wide_laws nothing_fails padded_bytes-IsStreaming wide_tls local_disk
      wide_IsStream junk header (codes "b") (codes "a.txt") [] greeting
      (encode_request header ++ greeting) [] owner nothing client_files client server
      header-IsHeader (omega arith) refl refl reported gone (sym (append-nil _)) let_in short_name
      refl server-Holds was_read
