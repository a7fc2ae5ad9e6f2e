-- ===== src/Client.antt =====
-- `download_file_ssl` and `upload_file_ssl` of src/client/client.c. What the file functions of the C
-- library do is a parameter.
pub mod Receive
pub mod Header
pub mod Send
pub mod Listing
pub mod Answer
pub mod Program
pub mod Kept
pub mod Uploaded
pub mod Asked
use daemon_file_hosting.Base.{
  ℕ, zero, suc, ◌+◌, ◌-◌, Bool, true, false, not, [], ◌∷◌, ◌++◌, Option, none, some, Bytes, length,
  take, drop, ltb, ◌==◌, if◌then◌else◌,
}
use daemon_file_hosting.Base.Int.{ℤ, pos, negsuc, to_size, long_of_bits}
use daemon_file_hosting.External.{Tls, Blake3}
use daemon_file_hosting.Protocol.{
  RequestHeader, ResponseHeader, cmd_upload, cmd_download, resp_success, buffer_size, little_endian,
  from_little_endian,
}
use daemon_file_hosting.Hash.{compute_file_blake3}
use daemon_file_hosting.Transfer.{arrived, ssl_send_all, ssl_recv_all}

-- The client's files. A stream opened for appending and moved to its end gives its position.
pub record LocalDisk : Type 1 where
  pub Files : Type 0
  pub open_append : Files → Bytes → Option ℕ × Files
  pub open_write : Files → Bytes → Bool × Files
  pub append : Files → Bytes → Bytes → ℕ × Files
  -- `st_size`; `none` if `stat` fails
  pub size_of : Files → Bytes → Option ℕ
  -- what `fread` gives from a stream opened for reading until it gives 0, and whether `ferror`
  -- is then set; `none` if the stream does not open
  pub read_all : Files → Bytes → Option (Bytes × Bool)

abbrev pub zeros : ℕ → Bytes
zeros zero = []
zeros (suc n) = 0 ∷ zeros n

-- `strncpy(header.filename, name, 255)` and the NUL behind it.
unfoldable pub filename_field : Bytes → Bytes
filename_field name = take 256 (take 255 name ++ zeros 256)

-- The request of a download. What the stack holds in the fields that the code does not set, the
-- offset among them, is `junk`.
unfoldable pub download_header : RequestHeader → Bytes → RequestHeader
unfolding filename_field
download_header junk remote_filename = record junk {
  command = cmd_download;
  filename = filename_field remote_filename;
  filesize = pos 0;
}

-- The low 32 bits of an `int` or an enum.
abbrev int_bits : ℤ → Bytes
int_bits z = little_endian 4 (to_size z)

-- The bytes of a request header in memory, its two gaps as zeros.
abbrev pub after_hash : RequestHeader → Bytes
after_hash h = h.recipient ++ zeros 6

abbrev pub after_filename : RequestHeader → Bytes
after_filename h =
    zeros 4
    ++ (little_endian 8 (to_size h.filesize)
        ++ (little_endian 8 (to_size h.offset)
            ++ ((h.flags ∷ []) ++ (h.file_hash ++ after_hash h))))

unfoldable pub encode_request : RequestHeader → Bytes
encode_request h = int_bits h.command ++ (h.filename ++ after_filename h)

-- `sizeof(ResponseHeader)`
abbrev pub response_size : ℕ
response_size = 16

unfoldable pub decode_response : Bytes → ResponseHeader
decode_response message = record {
  status = from_little_endian (take 4 message);
  filesize = long_of_bits (from_little_endian (take 8 (drop 8 message)));
}

-- The least of what is missing and the buffer.
abbrev pub piece_size : ℕ → ℕ
piece_size missing = if ltb missing buffer_size then missing else buffer_size

module _ (T : Tls) (L : LocalDisk) where
  abbrev pub State : Type 0
  State = T.Conn × L.Files

  -- The loop of `download_file_ssl` with `total` received, as the code counts: whether it comes to
  -- its end. Each round takes at least one byte, so one round more than there are bytes to come is
  -- enough.
  unfoldable pub download_loop : ℕ → Bytes → ℕ → ℕ → State → Bool × State
  download_loop zero path size total s = (false, s)
  download_loop (suc fuel) path size total (c, f) = elim (ltb total size) [
    | false ↦ (true, (c, f))
    | true ↦
        let r = T.ssl_read c (pos (piece_size (size - total))) in
        elim (arrived r.0) [
          | none ↦ (false, (r.1, f))
          | some piece ↦
              let w = L.append f path piece in
              elim (w.0 == length piece) [
                | false ↦ (false, (r.1, w.1))
                | true ↦ download_loop fuel path size (total + length piece) (r.1, w.1)
              ]
        ]
  ]

  -- From the test of the announced size on. The file is opened anew and is empty then, but the
  -- count starts at the offset that the old file gave.
  unfoldable pub receive_body : Bytes → ℕ → ℤ → State → Bool × State
  unfolding download_loop
  receive_body path offset (pos zero) s = (false, s)
  receive_body path offset (negsuc n) s = (false, s)
  receive_body path offset (pos (suc n)) (c, f) =
      let o = L.open_write f path in
      if not o.0 then (false, (c, o.1)) else download_loop (suc n + 1) path (suc n) offset (c, o.1)

  -- The request is sent and the answer is awaited; `none` if there is none, or not success. The
  -- second number is the announced size.
  unfoldable pub ask : RequestHeader → T.Conn → Option ℤ × T.Conn
  unfolding encode_request decode_response
  ask header c =
      let sent = ssl_send_all T (encode_request header) c in
      if not sent.0
      then (none, sent.1)
      else (let got = ssl_recv_all T response_size sent.1 in
          elim got.0 [
            | none ↦ (none, got.1)
            | some message ↦
                let response = decode_response message in
                ((if response.status == resp_success then some response.filesize else none), got.1)
          ])

  unfoldable pub download_file_ssl : RequestHeader → Bytes → Bytes → State → Bool × State
  unfolding receive_body ask download_header
  download_file_ssl junk remote_filename path (c, f) =
      let a = L.open_append f path in
      elim a.0 [
        | none ↦ (false, (c, a.1))
        | some offset ↦
            let r = ask (download_header junk remote_filename) c in
            elim r.0 [
              | none ↦ (false, (r.1, a.1))
              | some size ↦ receive_body path offset size (r.1, a.1)
            ]
      ]

  -- The loop that sends the file in pieces of BUFFER_SIZE. Each round takes at least one byte.
  pub send_pieces : ℕ → Bytes → T.Conn → Bool × T.Conn
  send_pieces zero text c = (false, c)
  send_pieces (suc fuel) [] c = (true, c)
  send_pieces (suc fuel) (b ∷ text) c =
      let r = ssl_send_all T (take buffer_size (b ∷ text)) c in
      elim r.0 [ false ↦ (false, r.1) | true ↦ send_pieces fuel (drop buffer_size (b ∷ text)) r.1 ]

  unfoldable pub send_text : Bytes → T.Conn → Bool × T.Conn
  unfolding send_pieces
  send_text text c = send_pieces (length text + 1) text c

  -- The final status; whether it is success.
  unfoldable pub await_status : T.Conn → Bool × T.Conn
  unfolding decode_response
  await_status c =
      let got = ssl_recv_all T response_size c in
      elim got.0 [
        | none ↦ (false, got.1)
        | some message ↦ ((decode_response message).status == resp_success, got.1)
      ]

  -- From the loop on: the text, the test of `ferror`, and the final status.
  unfoldable pub send_body : Bytes → Bool → T.Conn → Bool × T.Conn
  unfolding send_text await_status
  send_body text failed c =
      let sent = send_text text c in
      if not sent.0
      then (false, sent.1)
      else if failed
      then (false, sent.1)
      else await_status sent.1

  module _ (B : Blake3) where
    -- The request of an upload.
    unfoldable pub upload_header : RequestHeader → ℕ → Bytes → Bytes → Bytes → RequestHeader
    unfolding filename_field
    upload_header junk size text remote_filename recipient = record junk {
      command = cmd_upload;
      filename = filename_field remote_filename;
      filesize = pos size;
      file_hash = compute_file_blake3 B text;
      recipient = take 65 (take 64 recipient ++ zeros 65);
    }

    -- The file is opened twice, to be hashed and to be sent; it is taken not to change between.
    unfoldable pub upload_file_ssl :
        RequestHeader → Bytes → Bytes → Bytes → L.Files → T.Conn → Bool × T.Conn
    unfolding upload_header send_body ask
    upload_file_ssl junk path remote_filename recipient f c = elim (L.size_of f path) [
      | none ↦ (false, c)
      | some size ↦ elim (L.read_all f path) [
        | none ↦ (false, c)
        | some (text, failed) ↦
            if failed
            then (false, c)
            else (let r = ask (upload_header junk size text remote_filename recipient) c in
                elim r.0 [ none ↦ (false, r.1) | some announced ↦ send_body text failed r.1 ])
      ]
    ]
