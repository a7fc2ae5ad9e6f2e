-- ===== src/Client/Asked.antt =====
-- What the client has sent when it reports a download as done.
use daemon_file_hosting.Base.{
  ℕ, zero, suc, ◌+◌, ◌≡◌, refl, ◌∙◌, true, ◌++◌, ◌==◌, some, inl, inr, Bytes, length, ltb, arith,
  Bool-cases, Option-cases,
}
use daemon_file_hosting.Base.Int.{ℤ, pos, negsuc}
use daemon_file_hosting.External.{Tls}
use daemon_file_hosting.External.Laws.{IsStream}
use daemon_file_hosting.Protocol.{RequestHeader}
use daemon_file_hosting.Transfer.{arrived}
use daemon_file_hosting.Client.{
  LocalDisk, ask, encode_request, download_header, download_loop, receive_body, download_file_ssl,
}
use daemon_file_hosting.Client.Header.{IsHeader}
use daemon_file_hosting.Client.Receive.{
  round, download_loop-done, download_loop-stop, download_loop-full, download_loop-more,
}
use daemon_file_hosting.Client.Uploaded.{ask-sent, length-encode_request}

module _ (T : Tls) (L : LocalDisk) (C : IsStream T) where
  -- Receiving sends nothing.
  download_loop-sent :
      (fuel : ℕ) (path : Bytes) (size total : ℕ) (c : T.Conn) (f : L.Files)
      → C.sent (download_loop T L fuel path size total (c, f)).1.0 ≡ C.sent c
  unfolding download_loop
  download_loop-sent zero path size total c f = refl
  download_loop-sent (suc fuel) path size total c f =
      let r = round T L size total c in
      let quiet : C.sent r.1 ≡ C.sent c = C.read-sent c _ in
      elim (Bool-cases (ltb total size)) [
        | inr done ↦ rw (download_loop-done T L fuel path size total c f done) refl
        | inl again ↦ elim (Option-cases (arrived r.0)) [
          | inl stop ↦ rw (download_loop-stop T L fuel path size total c f again stop) quiet
          | inr (piece, e) ↦ elim (Bool-cases ((L.append f path piece).0 == length piece)) [
            | inr full ↦ rw (download_loop-full T L fuel path size total c f again e full) quiet
            | inl whole ↦ rw (download_loop-more T L fuel path size total c f again e whole) (
                download_loop-sent fuel path size (total + length piece) r.1
                  (L.append f path piece).1
                ∙ quiet)
          ]
        ]
      ]

  receive_body-sent :
      (path : Bytes) (offset : ℕ) (size : ℤ) (c : T.Conn) (f : L.Files)
      → C.sent (receive_body T L path offset size (c, f)).1.0 ≡ C.sent c
  unfolding receive_body
  receive_body-sent path offset (pos zero) c f = refl
  receive_body-sent path offset (negsuc n) c f = refl
  receive_body-sent path offset (pos (suc n)) c f = elim (Bool-cases (L.open_write f path).0) [
    | inr closed ↦ rw (closed, receive_body) refl
    | inl is_open ↦
        rw (is_open, receive_body) (download_loop-sent (suc n + 1) path (suc n) offset c _)
  ]

  -- When a download is reported as done its header has gone out, and nothing else.
  pub download_file_ssl-sent :
      (junk : RequestHeader) (name path : Bytes) (c : T.Conn) (f : L.Files) (k : ℕ)
      → IsHeader (download_header junk name)
      → (L.open_append f path).0 ≡ some k
      → (download_file_ssl T L junk name path (c, f)).0 ≡ true
      → C.sent (download_file_ssl T L junk name path (c, f)).1.0
        ≡ C.sent c ++ encode_request (download_header junk name)
  unfolding download_file_ssl
  download_file_ssl-sent junk name path c f k v there ok =
      let h = download_header junk name in
      let r = ask T L h c in
      elim (Option-cases r.0) [
        | inl nothing ↦ absurd (cc (rw (there, nothing, download_file_ssl) at ok))
        | inr (size, e) ↦
            rw (there, e, download_file_ssl)
              (receive_body-sent path k size r.1 (L.open_append f path).1
                ∙ ask-sent T L C h c size (omega (arith, length-encode_request h v)) e)
      ]
