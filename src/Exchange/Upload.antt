-- ===== src/Exchange/Upload.antt =====
-- The text in the client's file is the text on the server's shelf.
use mathlib.Core.Option.{some-injective}
use daemon_file_hosting.Base.{
  ◌^◌, ◌<◌, ◌≡◌, refl, sym, subst, ◌∙◌, ap, true, false, ◌++◌, ◌==◌, none, some, inl, inr, Bytes,
  c_string, length, append_assoc, arith, Bool-cases, Option-cases, append-cut,
}
use daemon_file_hosting.Base.Int.{pos}
use daemon_file_hosting.External.{Tls, Platform}
use daemon_file_hosting.External.Laws.{IsStream, IsStreaming}
use daemon_file_hosting.World.{World}
use daemon_file_hosting.Protocol.{RequestHeader}
use daemon_file_hosting.Transfer.{arrived}
use daemon_file_hosting.Client.{LocalDisk, encode_request, upload_header, upload_file_ssl}
use daemon_file_hosting.Client.Header.{IsHeader, decode_request-encode_request}
use daemon_file_hosting.Hash.{compute_file_blake3-eq-buffer}
use daemon_file_hosting.Server.Upload.Guards.{IsAdmissible}
use daemon_file_hosting.Server.Store.{Shelf, put}
use daemon_file_hosting.Server.Store.Quiet.{Everywhere, quiet_refl, Refines-quiet}
use daemon_file_hosting.Server.Store.Uploads.Accepting.{UploadLaws, Holds}
use daemon_file_hosting.Server.Store.Uploads.Success.{NothingFails, handle_upload_request-puts}
use daemon_file_hosting.Server.Session.{
  dispatch, command_of, read_request, decode_request, request_size,
}
use daemon_file_hosting.Client.Uploaded.{
  same_number, arrived-some, length-encode_request, upload_file_ssl-sent,
}

module _ (P : Platform) (S : IsStream P.tls) where
  -- A header that was written is the header that is read, and what is behind it is left.
  pub read_request-reads :
      (h req : RequestHeader) (rest : Bytes) (w : World P)
      → IsHeader h
      → S.incoming w.conn ≡ encode_request h ++ rest
      → (read_request P w).0 ≡ some req
      → (req ≡ h) × (S.incoming (read_request P w).1.conn ≡ rest)
  unfolding read_request
  read_request-reads h req rest w v waits e =
      let r = P.tls.ssl_read w.conn (pos request_size) in
      elim (Option-cases r.0) [
        | inl nothing ↦ absurd (cc (rw (nothing, read_request) at e))
        | inr (message, came) ↦ elim (Bool-cases (length message == request_size)) [
          | inr short ↦ absurd (cc (rw (came, short, read_request) at e))
          | inl whole ↦
              let is : decode_request message ≡ req =
                some-injective _ _ (rw (came, whole, read_request) at e) in
              let long : length message ≡ request_size =
                same_number (length message) request_size whole in
              let (fits, next) =
                S.read_some w.conn request_size message (pos request_size) refl
                  (ap arrived came ∙ arrived-some message (omega (arith, long))) in
              let (head, tail) =
                append-cut message _ (encode_request h) rest
                  (long ∙ sym (length-encode_request h v)) (sym next ∙ waits) in
              (sym is ∙ ap decode_request head ∙ decode_request-encode_request h v, tail)
        ]
      ]

module _ (P : Platform) (A : UploadLaws P) where
  -- Reading a request keeps the shelf.
  pub read_request-Holds :
      (shelf : Shelf) (w : World P) → Holds P A w shelf → Holds P A (read_request P w).1 shelf
  unfolding read_request
  read_request-Holds shelf w held =
      Refines-quiet P A.gcm A.files A.docs (Everywhere P A.files A.docs) shelf w _
        (quiet_refl P A.files A.docs (Everywhere P A.files A.docs) w _ refl refl refl)
        (λ name item n e. tt) held

  read_request-IsAdmissible :
      (req : RequestHeader) (w : World P)
      → IsAdmissible w req
      → IsAdmissible (read_request P w).1 req
  unfolding read_request
  read_request-IsAdmissible req w entry = record {
    ready = entry.ready;
    safe = entry.safe;
    addressed = entry.addressed;
  }

module _ (P : Platform) (A : UploadLaws P) (N : NothingFails P A) (H : IsStreaming P.blake3)
    (T : Tls) (L : LocalDisk) (C : IsStream T) where
  -- A client reports the upload of a file, below 2 ^ 31 bytes and unchanged meanwhile, as done.
  -- What it has sent comes in at a server that holds a shelf, and that lets the request in: it has
  -- its key, and the name is allowed, below 256 bytes and free. Then, whenever the server has read
  -- a request, and no call fails, its handler puts the file's text on the shelf under the name, as
  -- the owner's.
  pub uploaded_text_is_held :
      (junk req : RequestHeader) (path remote recipient text out rest owner : Bytes) (shelf : Shelf)
      (f : L.Files) (c : T.Conn) (w : World P)
      → let h = upload_header T L P.blake3 junk (length text) text remote recipient in
        IsHeader h
        → length text < 2 ^ 31
        → L.size_of f path ≡ some (length text)
        → L.read_all f path ≡ some (text, false)
        → (upload_file_ssl T L P.blake3 junk path remote recipient f c).0 ≡ true
        → C.sent (upload_file_ssl T L P.blake3 junk path remote recipient f c).1 ≡ C.sent c ++ out
        → A.stream.incoming w.conn ≡ out ++ rest
        → IsAdmissible w h
        → length (c_string h.filename) < 256
        → shelf (c_string h.filename) ≡ none
        → Holds P A w shelf
        → (read_request P w).0 ≡ some req
        → Holds P A
            (dispatch P (command_of req.command) req owner (read_request P w).1).1
            (put (c_string h.filename) (record { owner = owner; text = text }) shelf)
  unfolding dispatch command_of upload_header
  uploaded_text_is_held junk req path remote recipient text out rest owner shelf f c w v small size
        all done gone waits entry short free held came =
      let h = upload_header T L P.blake3 junk (length text) text remote recipient in
      let (_, is_out) = append-cut (C.sent c) out (C.sent c) (encode_request h ++ text) refl (
        sym gone
        ∙ upload_file_ssl-sent T L C P.blake3 junk path remote recipient text f c v size all
            done) in
      let (is_h, left) =
        read_request-reads P A.stream h req (text ++ rest) w v
          (waits ∙ ap (λ b. b ++ rest) is_out ∙ append_assoc (encode_request h) text rest) came in
      let served =
        handle_upload_request-puts P A N h owner text rest shelf (read_request P w).1
          (read_request-IsAdmissible P A h w entry) short free (read_request-Holds P A shelf w held)
          small refl left (sym (compute_file_blake3-eq-buffer P.blake3 H text)) in
      subst
        (λ q.
          Holds P A (dispatch P (command_of q.command) q owner (read_request P w).1).1
            (put (c_string h.filename) (record { owner = owner; text = text }) shelf))
        (sym is_h) served
