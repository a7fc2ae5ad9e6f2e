-- ===== src/Tests/Requests.antt =====
-- Requests to the server, over the small platform.
use daemon_file_hosting.Base.{
  ℕ, ◌+◌, ◌≡◌, refl, ◌⊎◌, ◌∷◌, [], true, some, none, List, Bytes, codes, length, arith, ◌<◌,
}
use daemon_file_hosting.Base.Int.{pos, size_to_int, to_int}
use daemon_file_hosting.Bson.{Doc, nil, field, utf8}
use daemon_file_hosting.World.{World}
use daemon_file_hosting.Protocol.{RequestHeader, resp_permission_denied}
use daemon_file_hosting.Path.{is_unsafe, storage_path}
use daemon_file_hosting.Cipher.{Sealed, enhanced_aes_gcm_encrypt}
use daemon_file_hosting.Server.Reply.{respond}
use daemon_file_hosting.Server.Upload.{handle_upload_request, metadata, encrypt, write_file}
use daemon_file_hosting.Server.Upload.Guards.{
  IsAdmissible, Untouched, handle_upload_request_refuses,
}
use daemon_file_hosting.Server.Upload.Verified.{IsChecked, upload_checks_text}
use daemon_file_hosting.Server.Upload.Stored.{is_closed}
use daemon_file_hosting.Exchange.Answered.{Sends, TextOrError, stored_text_is_sent}
use daemon_file_hosting.Server.Download.{handle_download_request, serve_document}
use daemon_file_hosting.Server.Download.Access.{
  IsReadable, IsRefused, handle_download_request_refuses,
}
use daemon_file_hosting.Server.Listing.{Buffer, build_list}
use daemon_file_hosting.Server.Listing.Builder.{HasRoom, texts, needed, build_list_overflows}
use daemon_file_hosting.Tests.Platform.{
  platform, flip_IsGcm, file_IsFileStore, copies, pipe_IsStream, pipe_KeepsMoving,
}
use daemon_file_hosting.Tests.Store.{doc_mongo, world_of}

abbrev greeting : Bytes
greeting = codes "hello, server"

-- A request for a name, with an offset.
abbrev request : Bytes → ℕ → RequestHeader
request name offset = record {
  command = pos 0;
  filename = name;
  filesize = pos 13;
  offset = pos offset;
  flags = 0;
  file_hash = greeting;
  recipient = [];
}

abbrev pub server : List Doc → World (platform doc_mongo)
server docs = world_of doc_mongo docs greeting

bad_name : ¬ IsAdmissible (server []) (request (codes "../key") 0)
unfolding is_unsafe
bad_name entry = cc (entry.safe)

handle_upload_request_refuses_example :
    handle_upload_request (platform doc_mongo) (request (codes "../key") 0) [] (server [])
    ≡ (tt, (respond (platform doc_mongo) resp_permission_denied (server [])).1)
handle_upload_request_refuses_example =
    handle_upload_request_refuses (platform doc_mongo) (request (codes "../key") 0) [] (server [])
      bad_name

upload_checks_text_example :
    Untouched
      (platform doc_mongo)
      (server [])
      (handle_upload_request (platform doc_mongo) (request (codes "a.txt") 0) [] (server [])).1
    ⊎ IsChecked (platform doc_mongo) pipe_IsStream (request (codes "a.txt") 0) (server [])
upload_checks_text_example =
    upload_checks_text (platform doc_mongo) pipe_IsStream (request (codes "a.txt") 0) [] (server [])

abbrev sealed : Sealed
sealed = record { ciphertext = codes "idmmn-!rdswds"; tag = copies 16 13 }

abbrev owner : Bytes
owner = codes "0102"

abbrev stored : World (platform doc_mongo)
stored =
    (write_file (platform doc_mongo) (storage_path (codes "a.txt")) sealed.ciphertext (server [])).1

sealing :
    (encrypt (platform doc_mongo) greeting (pos (length greeting)) (copies 12 5) (server [])).0
    ≡ some sealed
unfolding encrypt enhanced_aes_gcm_encrypt to_int size_to_int
sealing = refl

written :
    (write_file (platform doc_mongo) (storage_path (codes "a.txt")) sealed.ciphertext (server [])).0
    ≡ true
unfolding write_file
written = refl

key_kept : stored.g_file_crypto ≡ (server []).g_file_crypto
unfolding write_file
key_kept = refl

closed_well :
    is_closed (platform doc_mongo) (storage_path (codes "a.txt")) sealed.ciphertext (server [])
    ≡ true
closed_well = refl

stored_text_is_sent_example :
    Sends
      (platform doc_mongo)
      pipe_IsStream
      pipe_KeepsMoving
      stored
      (serve_document
        (platform doc_mongo)
        (request (codes "a.txt") 7)
        owner
        (metadata (codes "a.txt") (pos 13) (copies 12 5) sealed.tag owner)
        stored).1
      (TextOrError (platform doc_mongo) pipe_IsStream pipe_KeepsMoving 7 greeting)
stored_text_is_sent_example =
    stored_text_is_sent (platform doc_mongo) pipe_IsStream pipe_KeepsMoving flip_IsGcm
      file_IsFileStore (request (codes "a.txt") 7) greeting (copies 12 5) owner (pos 13) sealed
      (server []) (server []) stored 7 (omega arith) refl sealing written closed_well refl key_kept
      refl (omega arith)

nothing-IsReadable : ¬ IsReadable (platform doc_mongo) (request (codes "a.txt") 0) owner (server [])
nothing-IsReadable readable = cc (readable.found)

handle_download_request_refuses_example :
    IsRefused
      (platform doc_mongo)
      (server [])
      (handle_download_request (platform doc_mongo) (request (codes "a.txt") 0) owner (server []))
handle_download_request_refuses_example =
    handle_download_request_refuses (platform doc_mongo) (request (codes "a.txt") 0) owner
      (server []) nothing-IsReadable

pub platform-HasRoom : HasRoom (platform doc_mongo)
platform-HasRoom = record { malloc_ok = λ h n. refl; realloc_ok = λ h n. refl }

abbrev pub two_docs : List Doc
two_docs = field (codes "filename") (utf8 (codes "a")) nil ∷ nil ∷ []

two_texts : 1 < length (texts (platform doc_mongo) two_docs)
unfolding texts
two_texts = omega arith

build_list_overflows_example :
    (b : Buffer) × ((build_list (platform doc_mongo) two_docs none (server [])).0 ≡ some b)
    × (needed b ≡ b.capacity + 1)
build_list_overflows_example =
    build_list_overflows (platform doc_mongo) platform-HasRoom two_docs (server []) two_texts
