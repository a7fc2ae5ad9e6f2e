-- ===== src/Server/Download.antt =====
-- `handle_download_request` of src/server/server.c.
pub mod Access
pub mod Held
pub mod Success
use daemon_file_hosting.Base.{
  ℕ, zero, suc, ◌+◌, ◌-◌, Bool, true, false, not, ◌&&◌, ◌||◌, List, [], ◌∷◌, ◌++◌, Option, none,
  some, Bytes, codes, c_string, bytes_eq, length, drop, ltb, ◌==◌, if◌then◌else◌,
}
use daemon_file_hosting.Base.Int.{ℤ, pos, negsuc, pos_part, neg_part, ltb_ℤ, size_to_int, ◌-ℤ◌}
use daemon_file_hosting.Bson.{
  Doc, nil, field, utf8, boolean, find_field, as_utf8, as_bool, as_binary,
}
use daemon_file_hosting.External.{Platform}
use daemon_file_hosting.World.{World, M, pure, ◌>>=◌, ◌>>◌, malloc, find}
use daemon_file_hosting.Protocol.{
  RequestHeader, resp_success, resp_permission_denied, resp_error, resp_file_not_found,
  resp_invalid_offset,
}
use daemon_file_hosting.Path.{is_unsafe, storage_path}
use daemon_file_hosting.Cipher.{enhanced_aes_gcm_decrypt}
use daemon_file_hosting.Proc.{append_proc_event}
use daemon_file_hosting.Server.Reply.{send, respond, respond_with}

abbrev pub download_query : Bytes → Doc
download_query filename =
    field (codes "filename") (utf8 filename) (field (codes "deleted") (boolean false) nil)

-- owner_fp && strcmp(owner_fp, client_fingerprint) == 0
abbrev is_owner : Option Bytes → Bytes → Bool
is_owner none fingerprint = false
is_owner (some owner) fingerprint = bytes_eq owner fingerprint

abbrev is_true : Option Bool → Bool
is_true none = false
is_true (some b) = b

-- Who may read a document: anyone if it says that it is public, else its owner.
unfoldable pub may_read : Doc → Bytes → Bool
may_read doc fingerprint =
    is_true (as_bool (find_field (codes "public") doc))
    || is_owner (as_utf8 (find_field (codes "owner_fingerprint") doc)) fingerprint

-- The nonce and the tag of a document, if they have the right lengths.
unfoldable pub seal_of : Doc → Option (Bytes × Bytes)
seal_of doc = elim (as_binary (find_field (codes "iv") doc)) [
  | none ↦ none
  | some iv ↦ elim (as_binary (find_field (codes "tag") doc)) [
    | none ↦ none
    | some tag ↦ if length iv == 12 && length tag == 16 then some (iv, tag) else none
  ]
]

-- The bytes from `offset` on: none if the offset is beyond the text.
abbrev pub tail_from : ℤ → Bytes → Bytes
tail_from (pos n) text = drop n text
tail_from (negsuc n) text = text

module _ (P : Platform) where
  abbrev pub finish : ℕ → M P (Unit {0})
  finish status = do respond P status; pure tt

  -- The reply and the text, then the event. A send that fails is not noticed.
  unfoldable pub send_text : RequestHeader → Bytes → M P (Unit {0})
  send_text req plaintext = do
    respond_with P resp_success (pos (length plaintext))
    (if ltb_ℤ (pos 0) (pos (length plaintext) -ℤ req.offset)
        then (do send P (tail_from req.offset plaintext); pure tt)
        else pure tt)
    append_proc_event P (storage_path (c_string req.filename)) (codes "download") (codes "success")
    pure tt

  unfoldable pub decrypt : Bytes → ℕ → Bytes × Bytes → M P (Option Bytes)
  decrypt ciphertext filesize (iv, tag) w =
      let r =
        enhanced_aes_gcm_decrypt P.evp ciphertext (size_to_int filesize) w.g_file_crypto.key iv tag
          w.engine in
      (r.0, record w { engine = r.1 })

  abbrev pub send_opened : RequestHeader → Option Bytes → M P (Unit {0})
  send_opened req none = finish resp_error
  send_opened req (some plaintext) = send_text req plaintext

  abbrev pub open_with : RequestHeader → ℕ → Bytes → Option (Bytes × Bytes) → M P (Unit {0})
  open_with req filesize ciphertext none = finish resp_error
  open_with req filesize ciphertext (some marks) = do
    room ← malloc P filesize
    if not room
        then finish resp_error
        else do text ← decrypt ciphertext filesize marks; send_opened req text

  -- From the nonce and the tag on.
  unfoldable pub open_text : RequestHeader → Doc → ℕ → Bytes → M P (Unit {0})
  open_text req doc filesize ciphertext = open_with req filesize ciphertext (seal_of doc)

  -- From `fopen` on: `filesize` is what `stat` said.
  unfoldable pub read_file : RequestHeader → Doc → ℕ → M P (Unit {0})
  read_file req doc filesize w =
      let path = storage_path (c_string req.filename) in
      if not (P.disk.fopen_read w.files path)
      then finish resp_error w
      else (do
        room ← malloc P filesize
        if not room
            then finish resp_error
            else (let ciphertext = P.disk.fread w.files path filesize in
                if not (length ciphertext == filesize)
                then finish resp_error
                else open_text req doc filesize ciphertext))
          w

  -- The result of `stat`, and the test of the offset.
  abbrev pub serve_stat : RequestHeader → Doc → Option ℕ → M P (Unit {0})
  serve_stat req doc none = finish resp_file_not_found
  serve_stat req doc (some filesize) =
      if ltb_ℤ req.offset (pos 0) || ltb_ℤ (pos filesize) req.offset
      then finish resp_invalid_offset
      else read_file req doc filesize

  -- From the test of the rights on, for the first document that was found.
  unfoldable pub serve_document : RequestHeader → Bytes → Doc → M P (Unit {0})
  serve_document req fingerprint doc w =
      if not (may_read doc fingerprint)
      then finish resp_permission_denied w
      else serve_stat req doc (P.disk.stat w.files (storage_path (c_string req.filename))) w

  abbrev pub serve_first : RequestHeader → Bytes → List Doc → M P (Unit {0})
  serve_first req fingerprint [] = finish resp_file_not_found
  serve_first req fingerprint (doc ∷ _) = serve_document req fingerprint doc

  unfoldable pub handle_download_request : RequestHeader → Bytes → M P (Unit {0})
  handle_download_request req fingerprint =
      if is_unsafe (c_string req.filename) then finish resp_permission_denied else do
        docs ← find P (download_query (c_string req.filename)) nil
        serve_first req fingerprint docs
