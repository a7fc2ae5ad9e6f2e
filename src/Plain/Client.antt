-- ===== src/Plain/Client.antt =====
-- The older client of src/client/code.c over a plain socket: its header has three fields, and there
-- is no hash, no recipient and no offset. The rounds of the loops are fuel.
pub mod Received
use daemon_file_hosting.Base.{
  ℕ, zero, suc, ◌+◌, ◌-◌, Bool, true, false, not, List, [], ◌∷◌, ◌++◌, Option, none, some, Bytes,
  codes, bytes_eq, length, take, drop, ltb, ◌==◌, if◌then◌else◌,
}
use daemon_file_hosting.Base.Int.{ℤ, pos, negsuc, to_size}
use daemon_file_hosting.Protocol.{
  ResponseHeader, cmd_upload, cmd_download, cmd_list, resp_success, buffer_size, little_endian,
}
use daemon_file_hosting.Client.{
  LocalDisk, filename_field, decode_response, response_size, piece_size, zeros,
}
use daemon_file_hosting.Plain.{
  Sockets, Came, bytes, recv_interrupted, recv_failed, send_all, recv_all,
}

-- The header's three fields in memory, its gap as zeros.
unfoldable pub encode_header : ℤ → Bytes → ℤ → Bytes
encode_header command filename filesize =
    little_endian 4 (to_size command)
    ++ (filename ++ (zeros 4 ++ little_endian 8 (to_size filesize)))

module _ (K : Sockets) (L : LocalDisk) where
  abbrev pub State : Type 0
  State = K.Conn × L.Files

  -- `none`: the rounds have run out. Else whether the function returns 0.
  abbrev pub Result : Type 0
  Result = Option Bool × State

  -- A header is sent and the answer awaited: `some none` if that fails, else the answer.
  unfoldable pub ask : ℕ → Bytes → K.Conn → Option (Option ResponseHeader) × K.Conn
  ask fuel header c =
      let sent = send_all K fuel header c in
      elim sent.0 [
        | none ↦ (none, sent.1)
        | some ok ↦
            if not ok
            then (some none, sent.1)
            else (let got = recv_all K fuel response_size sent.1 in
                elim got.0 [
                  | none ↦ (none, got.1)
                  | some answer ↦ elim answer [
                    | none ↦ (some none, got.1)
                    | some message ↦ (some (some (decode_response message)), got.1)
                  ]
                ])
      ]

  -- What `recv` has given, for the loops that make no call again: nothing on any -1 and at the end.
  abbrev pub given : Came → Option Bytes
  given (bytes []) = none
  given (bytes (b ∷ s)) = some (b ∷ s)
  given recv_interrupted = none
  given recv_failed = none

  -- The loop of `download_file` with `total` received. Each round takes at least one byte.
  unfoldable pub download_loop : ℕ → Bytes → ℕ → ℕ → State → Result
  download_loop zero path size total s = (none, s)
  download_loop (suc fuel) path size total (c, f) = elim (ltb total size) [
    | false ↦ (some true, (c, f))
    | true ↦
        let r = K.recv c (piece_size (size - total)) in
        elim (given r.0) [
          | none ↦ (some false, (r.1, f))
          | some piece ↦
              let w = L.append f path piece in
              elim (w.0 == length piece) [
                | false ↦ (some false, (r.1, w.1))
                | true ↦ download_loop fuel path size (total + length piece) (r.1, w.1)
              ]
        ]
  ]

  -- From the announced size on.
  unfoldable pub receive_body : ℕ → Bytes → ℤ → State → Result
  unfolding download_loop
  receive_body fuel path (pos zero) s = (some false, s)
  receive_body fuel path (negsuc n) s = (some false, s)
  receive_body fuel path (pos (suc n)) (c, f) =
      let o = L.open_write f path in
      if not o.0 then (some false, (c, o.1)) else download_loop fuel path (suc n) 0 (c, o.1)

  unfoldable pub download_file : ℕ → Bytes → Bytes → State → Result
  unfolding receive_body ask
  download_file fuel remote_filename path (c, f) =
      let r = ask fuel (encode_header cmd_download (filename_field remote_filename) (pos 0)) c in
      elim r.0 [
        | none ↦ (none, (r.1, f))
        | some answer ↦ elim answer [
          | none ↦ (some false, (r.1, f))
          | some response ↦
              if response.status == resp_success
              then receive_body fuel path response.filesize (r.1, f)
              else (some false, (r.1, f))
        ]
      ]

  -- The loop that sends the file in pieces of BUFFER_SIZE.
  unfoldable pub send_pieces : ℕ → ℕ → Bytes → K.Conn → Option Bool × K.Conn
  send_pieces zero fuel text c = (none, c)
  send_pieces (suc rounds) fuel [] c = (some true, c)
  send_pieces (suc rounds) fuel (b ∷ text) c =
      let r = send_all K fuel (take buffer_size (b ∷ text)) c in
      elim r.0 [
        | none ↦ (none, r.1)
        | some ok ↦ elim ok [
          | false ↦ (some false, r.1)
          | true ↦ send_pieces rounds fuel (drop buffer_size (b ∷ text)) r.1
        ]
      ]

  -- The final status, after the test of `ferror`.
  unfoldable pub await_status : ℕ → K.Conn → Option Bool × K.Conn
  await_status fuel c =
      let got = recv_all K fuel response_size c in
      elim got.0 [
        | none ↦ (none, got.1)
        | some answer ↦ elim answer [
          | none ↦ (some false, got.1)
          | some message ↦ (some ((decode_response message).status == resp_success), got.1)
        ]
      ]

  unfoldable pub send_body : ℕ → Bytes → Bool → K.Conn → Option Bool × K.Conn
  unfolding send_pieces await_status
  send_body fuel text failed c =
      let sent = send_pieces fuel fuel text c in
      elim sent.0 [
        | none ↦ (none, sent.1)
        | some ok ↦
            if not ok
            then (some false, sent.1)
            else if failed
            then (some false, sent.1)
            else await_status fuel sent.1
      ]

  unfoldable pub upload_file : ℕ → Bytes → Bytes → L.Files → K.Conn → Option Bool × K.Conn
  unfolding send_body ask
  upload_file fuel path remote_filename f c = elim (L.size_of f path) [
    | none ↦ (some false, c)
    | some size ↦ elim (L.read_all f path) [
      | none ↦ (some false, c)
      | some (text, failed) ↦
          let r =
            ask fuel (encode_header cmd_upload (filename_field remote_filename) (pos size)) c in
          elim r.0 [
            | none ↦ (none, r.1)
            | some answer ↦ elim answer [
              | none ↦ (some false, r.1)
              | some response ↦
                  if response.status == resp_success
                  then send_body fuel text failed r.1
                  else (some false, r.1)
            ]
          ]
    ]
  ]
