-- ===== src/Client/Uploaded.antt =====
-- What the client has sent when it reports an upload as done.
use daemon_file_hosting.Base.{
  ℕ, ◌^◌, ◌<◌, ◌≡◌, refl, ◌∙◌, ap, true, false, ◌++◌, ◌∷◌, ◌==◌, [], some, inl, inr, Bytes, length,
  length-append, append_assoc, arith, Bool-cases, Option-cases,
}
use daemon_file_hosting.Base.Int.{ℤ}
use daemon_file_hosting.External.{Tls, Blake3}
use daemon_file_hosting.External.Laws.{IsStream}
use daemon_file_hosting.Protocol.{RequestHeader}
use daemon_file_hosting.Transfer.{arrived, ssl_send_all, ssl_recv_all}
use daemon_file_hosting.Transfer.Apart.{ssl_recv_all-sent, ssl_send_all-whole}
use daemon_file_hosting.Client.{
  zeros, after_filename, after_hash, LocalDisk, ask, encode_request, upload_header, upload_file_ssl,
  send_body, send_text, await_status, response_size,
}
use daemon_file_hosting.Client.Header.{IsHeader}
use daemon_file_hosting.Client.Send.{send_text-sent}
use daemon_file_hosting.Server.Session.{request_size}

pub same_number : (a b : ℕ) → (a == b) ≡ true → a ≡ b
same_number a b h = ground arith

pub arrived-some : (s : Bytes) → 0 < length s → arrived (some s) ≡ some s
arrived-some [] h = absurd (omega (arith, h))
arrived-some (b ∷ s) h = refl

module _ (T : Tls) (L : LocalDisk) (C : IsStream T) where
  -- An answer was awaited only after the whole header had gone out.
  pub ask-sent :
      (header : RequestHeader) (c : T.Conn) (size : ℤ)
      → length (encode_request header) < 2 ^ 31
      → (ask T L header c).0 ≡ some size
      → C.sent (ask T L header c).1 ≡ C.sent c ++ encode_request header
  unfolding ask
  ask-sent header c size small e =
      let sent = ssl_send_all T (encode_request header) c in
      elim (Bool-cases sent.0) [
        | inr lost ↦ absurd (cc (rw (lost, ask) at e))
        | inl gone ↦
            let out =
              ssl_recv_all-sent T C response_size sent.1
              ∙ ssl_send_all-whole T C (encode_request header) c small gone in
            elim (Option-cases (ssl_recv_all T response_size sent.1).0) [
              | inl lost ↦ rw (gone, lost, ask) out
              | inr (message, came) ↦ rw (gone, came, ask) out
            ]
      ]

  await_status-sent : (c : T.Conn) → C.sent (await_status T L c).1 ≡ C.sent c
  unfolding await_status
  await_status-sent c = elim (Option-cases (ssl_recv_all T response_size c).0) [
    | inl lost ↦ rw (lost, await_status) (ssl_recv_all-sent T C response_size c)
    | inr (message, e) ↦ rw (e, await_status) (ssl_recv_all-sent T C response_size c)
  ]

  send_body-sent :
      (text : Bytes) (c : T.Conn)
      → (send_body T L text false c).0 ≡ true
      → C.sent (send_body T L text false c).1 ≡ C.sent c ++ text
  unfolding send_body
  send_body-sent text c ok =
      let sent = send_text T L text c in
      elim (Bool-cases sent.0) [
        | inr lost ↦ absurd (cc (rw (lost, send_body) at ok))
        | inl gone ↦
            rw (gone, send_body) (await_status-sent sent.1 ∙ send_text-sent T L C text c gone)
      ]

pub length-encode_request :
    (h : RequestHeader) → IsHeader h → length (encode_request h) ≡ request_size
unfolding encode_request
length-encode_request h v = omega (
  arith,
  length-append h.filename (after_filename h),
  length-append h.file_hash (after_hash h),
  length-append h.recipient (zeros 6),
  v.filename_length,
  v.hash_length,
  v.recipient_length,
)

module _ (T : Tls) (L : LocalDisk) (C : IsStream T) (B : Blake3) where
  -- When an upload is reported as done, its header and its file have gone out, and nothing else.
  pub upload_file_ssl-sent :
      (junk : RequestHeader) (path remote recipient text : Bytes) (f : L.Files) (c : T.Conn)
      → IsHeader (upload_header T L B junk (length text) text remote recipient)
      → L.size_of f path ≡ some (length text)
      → L.read_all f path ≡ some (text, false)
      → (upload_file_ssl T L B junk path remote recipient f c).0 ≡ true
      → C.sent (upload_file_ssl T L B junk path remote recipient f c).1
        ≡ C.sent c
          ++ (encode_request (upload_header T L B junk (length text) text remote recipient) ++ text)
  unfolding upload_file_ssl
  upload_file_ssl-sent junk path remote recipient text f c v size all ok =
      let h = upload_header T L B junk (length text) text remote recipient in
      let r = ask T L h c in
      elim (Option-cases r.0) [
        | inl nothing ↦ absurd (cc (rw (size, all, nothing, upload_file_ssl) at ok))
        | inr (announced, e) ↦
            rw (size, all, e, upload_file_ssl)
              (send_body-sent T L C text r.1 (rw (size, all, e, upload_file_ssl) at ok)
                ∙ ap (λ b. b ++ text)
                    (ask-sent T L C h c announced (omega (arith, length-encode_request h v)) e)
                ∙ append_assoc (C.sent c) (encode_request h) text)
      ]
