-- ===== src/Server/Upload.antt =====
-- `handle_upload_request` of src/server/server.c, part by part in the order of the code. A part
-- that returns early has sent its reply.
pub mod Guards
pub mod Stored
pub mod Verified
pub mod Received
use daemon_file_hosting.Base.{
  ℕ, zero, suc, ◌+◌, ◌-◌, Bool, true, false, not, ◌&&◌, ◌||◌, [], ◌∷◌, ◌++◌, Option, none, some,
  Bytes, codes, c_string, bytes_eq, length, ltb, leb, ◌==◌, if◌then◌else◌,
}
use daemon_file_hosting.Base.Int.{ℤ, pos, negsuc, pos_part, to_size, to_int}
use daemon_file_hosting.Bson.{Doc, nil, field, utf8, int64, boolean, binary}
use daemon_file_hosting.External.{Platform, Inserted, inserted, refused}
use daemon_file_hosting.World.{World, M, pure, ◌>>=◌, ◌>>◌, malloc, rand_bytes, insert_one}
use daemon_file_hosting.Protocol.{
  RequestHeader, buffer_size, fingerprint_len, resp_success, resp_permission_denied, resp_error,
  resp_integrity_error,
}
use daemon_file_hosting.Transfer.{ssl_recv_all}
use daemon_file_hosting.Path.{is_unsafe, storage_path}
use daemon_file_hosting.Hash.{compute_buffer_blake3}
use daemon_file_hosting.Cipher.{Sealed, enhanced_aes_gcm_encrypt}
use daemon_file_hosting.Proc.{append_proc_event}
use daemon_file_hosting.Server.Reply.{respond}

-- A character of a fingerprint.
abbrev pub is_hex : ℕ → Bool
is_hex c = (leb b'0' c && leb c b'9') || (leb b'a' c && leb c b'f')

abbrev pub all_hex : Bytes → Bool
all_hex [] = true
all_hex (c ∷ s) = is_hex c && all_hex s

-- The test on a recipient that is given: its length, then its 64 characters.
unfoldable pub is_bad_recipient : Bytes → Bool
is_bad_recipient [] = false
is_bad_recipient (c ∷ s) = not (length (c ∷ s) == fingerprint_len - 1) || not (all_hex (c ∷ s))

-- The metadata, as it is when it is inserted.
unfoldable pub metadata : Bytes → ℤ → Bytes → Bytes → Bytes → Doc
metadata filename filesize iv tag fingerprint = field (codes "filename") (utf8 filename) (
    field (codes "size") (int64 filesize) (
      field (codes "encrypted") (boolean true) (
        field (codes "iv") (binary iv) (
          field (codes "tag") (binary tag) (
            field (codes "deleted") (boolean false)
              (field (codes "owner_fingerprint") (utf8 fingerprint) nil))))))

module _ (P : Platform) where
  -- The loop that receives `remaining` bytes in pieces of at most BUFFER_SIZE; `none` if a piece
  -- does not arrive. Each round takes at least one byte, so `remaining + 1` rounds are enough.
  receive_loop : ℕ → ℕ → Bytes → M P (Option Bytes)
  receive_loop zero remaining got w = (none, w)
  receive_loop (suc fuel) zero got w = (some got, w)
  receive_loop (suc fuel) (suc n) got w =
      let to_read = if ltb (suc n) buffer_size then suc n else buffer_size in
      let r = ssl_recv_all P.tls to_read w.conn in
      elim r.0 [
        | none ↦ (none, record w { conn = r.1 })
        | some piece ↦ receive_loop fuel (suc n - to_read) (got ++ piece) (record w { conn = r.1 })
      ]

  unfoldable pub receive_file : ℤ → M P (Option Bytes)
  unfolding receive_loop
  receive_file filesize = receive_loop (pos_part filesize + 1) (pos_part filesize) []

  -- `resp.status = status; ssl_send_all(...); return;`
  abbrev pub finish : ℕ → M P (Unit {0})
  finish status = do respond P status; pure tt

  -- The reply by the result of the insertion. That the event is recorded is not required.
  abbrev pub conclude : RequestHeader → Inserted → M P (Unit {0})
  conclude req (refused code) = finish resp_error
  conclude req inserted = do
    append_proc_event P (storage_path (c_string req.filename)) (codes "upload") (codes "success")
    finish resp_success

  -- From `mongoc_collection_insert_one` on. What the code appends to the document after it has
  -- been inserted and destroyed reaches no collection; of that only the clock is read.
  unfoldable pub record_upload : RequestHeader → Bytes → Bytes → Sealed → M P (Unit {0})
  record_upload req fingerprint iv sealed = do
    r ← insert_one P (metadata (c_string req.filename) req.filesize iv sealed.tag fingerprint)
    λ w. (tt, record w { time = (P.system.monotonic w.time).1 })
    conclude req r

  -- fopen, fwrite and fclose: whether fwrite took the whole ciphertext. The result of fclose is not
  -- looked at.
  unfoldable pub write_file : Bytes → Bytes → M P Bool
  write_file path text w =
      let o = P.disk.fopen_write w.files path in
      if o.0
      then (let r = P.disk.fwrite o.1 path text in
          (r.0 == length text, record w { files = (P.disk.fclose r.1 path).1 }))
      else (false, record w { files = o.1 })

  unfoldable pub store_upload : RequestHeader → Bytes → Bytes → Option Sealed → M P (Unit {0})
  store_upload req fingerprint iv none = finish resp_error
  store_upload req fingerprint iv (some sealed) = do
    written ← write_file (storage_path (c_string req.filename)) sealed.ciphertext
    if not written then finish resp_error else record_upload req fingerprint iv sealed

  -- The length that is passed on is an `int`.
  unfoldable pub encrypt : Bytes → ℤ → Bytes → M P (Option Sealed)
  encrypt plaintext filesize iv w =
      let r =
        enhanced_aes_gcm_encrypt P.evp plaintext (to_int filesize) w.g_file_crypto.key iv
          w.engine in
      (r.0, record w { engine = r.1 })

  -- From the generation of the nonce on.
  abbrev pub seal_upload : RequestHeader → Bytes → Bytes → Option Bytes → M P (Unit {0})
  seal_upload req fingerprint plaintext none = finish resp_error
  seal_upload req fingerprint plaintext (some iv) = do
    sealed ← encrypt plaintext req.filesize iv
    store_upload req fingerprint iv sealed

  -- From the test of the hash on. The buffer for the ciphertext is allocated and not tested.
  unfoldable pub accept_upload : RequestHeader → Bytes → Bytes → M P (Unit {0})
  accept_upload req fingerprint plaintext =
      if not (bytes_eq (compute_buffer_blake3 P.blake3 plaintext) req.file_hash)
      then finish resp_integrity_error
      else do
        malloc P (to_size req.filesize + 16)
        nonce ← rand_bytes P 12
        seal_upload req fingerprint plaintext nonce

  -- The data have stopped, and no reply follows; or they are all there.
  abbrev pub take_upload : RequestHeader → Bytes → Option Bytes → M P (Unit {0})
  take_upload req fingerprint none = pure tt
  take_upload req fingerprint (some plaintext) = accept_upload req fingerprint plaintext

  -- From the allocation of the plaintext on.
  unfoldable pub receive_upload : RequestHeader → Bytes → M P (Unit {0})
  receive_upload req fingerprint = do
    room ← malloc P (to_size req.filesize)
    if not room
        then finish resp_error
        else do got ← receive_file req.filesize; take_upload req fingerprint got

  unfoldable pub handle_upload_request : RequestHeader → Bytes → M P (Unit {0})
  handle_upload_request req fingerprint w =
      if not w.g_file_crypto.initialized
      then finish resp_error w
      else if is_unsafe (c_string req.filename)
      then finish resp_permission_denied w
      else if is_bad_recipient (c_string req.recipient)
      then finish resp_permission_denied w
      else (do
        ready ← respond P resp_success
        if not ready then pure tt else receive_upload req fingerprint)
          w
