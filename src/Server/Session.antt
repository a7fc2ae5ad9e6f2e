-- ===== src/Server/Session.antt =====
-- `handle_client` of src/server/server.c: the handshake, the client's fingerprint, and the loop
-- over its requests.
pub mod Fingerprint
use daemon_file_hosting.Base.{
  ℕ, zero, suc, ◌+◌, ◌-◌, ◌*◌, ◌/◌, ◌%◌, ◌^◌, Bool, true, false, not, List, [], ◌∷◌, ◌++◌, Option,
  none, some, Bytes, codes, length, take, drop, ltb, ◌==◌, if◌then◌else◌,
}
use daemon_file_hosting.Base.Int.{ℤ, pos, negsuc, int_of_bits, long_of_bits}
use daemon_file_hosting.External.{Platform}
use daemon_file_hosting.World.{World, M, pure, ◌>>=◌, ◌>>◌}
use daemon_file_hosting.Protocol.{
  RequestHeader, from_little_endian, cmd_upload, cmd_download, cmd_list, resp_unknown_command,
}
use daemon_file_hosting.Server.Reply.{respond}
use daemon_file_hosting.Server.Upload.{handle_upload_request}
use daemon_file_hosting.Server.Download.{handle_download_request}
use daemon_file_hosting.Server.Listing.{handle_list_request}

-- sprintf("%02x") of one byte.
abbrev hex_digit : ℕ → ℕ
hex_digit d = if ltb d 10 then b'0' + d else b'a' + (d - 10)

-- The loop over the digest.
unfoldable pub hex_text : Bytes → Bytes
hex_text [] = []
hex_text (b ∷ digest) = hex_digit (b / 16) ∷ hex_digit (b % 16) ∷ hex_text digest

-- `sizeof(RequestHeader)`
abbrev pub request_size : ℕ
request_size = 384

-- The bytes of a field at an offset.
abbrev slice : ℕ → ℕ → Bytes → Bytes
slice at n message = take n (drop at message)

-- The struct that lies in the bytes read, field by field.
unfoldable pub decode_request : Bytes → RequestHeader
decode_request message = record {
  command = int_of_bits (from_little_endian (slice 0 4 message));
  filename = slice 4 256 message;
  filesize = long_of_bits (from_little_endian (slice 264 8 message));
  offset = long_of_bits (from_little_endian (slice 272 8 message));
  flags = from_little_endian (slice 280 1 message);
  file_hash = slice 281 32 message;
  recipient = slice 313 65 message;
}

-- The cases of the switch.
pub data Command : Type 0 where
  upload download listing unknown : Command

unfoldable pub command_of : ℤ → Command
command_of (pos n) =
    if n == 0 then upload else if n == 1 then download else if n == 2 then listing else unknown
command_of (negsuc n) = unknown

module _ (P : Platform) where
  unfoldable pub dispatch : Command → RequestHeader → Bytes → M P (Unit {0})
  dispatch upload req fingerprint = handle_upload_request P req fingerprint
  dispatch listing req fingerprint = handle_list_request P fingerprint
  dispatch download req fingerprint = handle_download_request P req fingerprint
  dispatch unknown req fingerprint = do respond P resp_unknown_command; pure tt

  -- One `SSL_read` of a whole header; `none` if it gives fewer bytes, which ends the loop.
  unfoldable pub read_request : M P (Option RequestHeader)
  unfolding decode_request
  read_request w =
      let r = P.tls.ssl_read w.conn (pos request_size) in
      (
        elim r.0 [
          | none ↦ none
          | some message ↦
              if length message == request_size then some (decode_request message) else none
        ],
        record w { conn = r.1 },
      )

  -- A client may go on sending requests for ever: `fuel` is the number of reads that are followed,
  -- and the result says whether the loop has ended.
  unfoldable pub serve_loop : ℕ → Bytes → M P Bool
  unfolding read_request dispatch command_of
  serve_loop zero fingerprint w = (false, w)
  serve_loop (suc fuel) fingerprint w =
      let r = read_request w in
      elim r.0 [
        | none ↦ (true, r.1)
        | some req ↦
            let served = dispatch (command_of req.command) req fingerprint r.1 in
            serve_loop fuel fingerprint served.1
      ]

  -- The whole thread: `none` if the handshake fails or the client shows no certificate.
  unfoldable pub handle_client : ℕ → M P (Option Bool)
  unfolding serve_loop hex_text
  handle_client fuel w =
      let new = P.tls.ssl_new w.conn in
      if not new.0
      then (none, record w { conn = new.1 })
      else (let hello = P.tls.ssl_accept new.1 in
          if not hello.0
          then (none, record w { conn = hello.1 })
          else (elim (P.tls.peer_digest hello.1) [
            | none ↦ (none, record w { conn = hello.1 })
            | some digest ↦
                let r = serve_loop fuel (hex_text digest) (record w { conn = hello.1 }) in
                (some r.0, record r.1 { conn = P.tls.ssl_shutdown r.1.conn })
          ]))
