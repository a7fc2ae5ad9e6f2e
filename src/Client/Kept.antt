-- ===== src/Client/Kept.antt =====
-- What the file of a client holds when it reports a download as done.
use daemon_file_hosting.Base.{
  ℕ, ◌-◌, ◌≡◌, sym, ◌∙◌, ap, true, ◌++◌, some, Option, inl, inr, Bytes, length, Option-cases,
}
use daemon_file_hosting.Base.Int.{ℤ, pos, negsuc}
use daemon_file_hosting.External.{Tls}
use daemon_file_hosting.External.Laws.{IsStream}
use daemon_file_hosting.Protocol.{RequestHeader, resp_success}
use daemon_file_hosting.Client.{
  decode_response, response_size, LocalDisk, State, ask, receive_body, download_header,
  download_file_ssl,
}
use daemon_file_hosting.Client.Answer.{ask-takes}
use daemon_file_hosting.Client.Receive.{IsLocalStore, receive_body-keeps}

module _ (T : Tls) (L : LocalDisk) (C : IsStream T) (F : IsLocalStore L) where
  -- A header of status success, then the bytes of the announced size from `k` on, were taken in, and
  -- the file holds these bytes.
  abbrev pub Keeps : ℕ → Bytes → T.Conn → State T L → Type 0
  Keeps k path c s =
      (size : ℕ) × (message : Bytes) × (text : Bytes) × (length message ≡ response_size)
      × (decode_response message ≡ record { status = resp_success; filesize = pos size })
      × (length text ≡ size - k)
      × (C.incoming c ≡ message ++ (text ++ C.incoming s.0))
      × (F.contents s.1 path ≡ some text)

  -- A download that is reported as done came in behind a header of status success: the bytes of the
  -- announced size from the length of the old file on, and they are what the file holds now.
  pub download_file_ssl-Keeps :
      (junk : RequestHeader) (name path : Bytes) (c : T.Conn) (f : L.Files) (k : ℕ)
      → (L.open_append f path).0 ≡ some k
      → (download_file_ssl T L junk name path (c, f)).0 ≡ true
      → Keeps k path c (download_file_ssl T L junk name path (c, f)).1
  unfolding download_file_ssl receive_body
  download_file_ssl-Keeps junk name path c f k there ok = elim (Option-cases r.0) [
    | inl nothing ↦ absurd (cc (rw (there, nothing, download_file_ssl) at ok))
    | inr (size, e) ↦ received size e (rw (there, e, download_file_ssl))
  ]
    where
      header : RequestHeader
      header = download_header junk name

      r : Option ℤ × T.Conn
      r = ask T L header c

      opened : L.Files
      opened = (L.open_append f path).1

      nothing_kept : (n : ℕ) → ¬ ((receive_body T L path k (negsuc n) (r.1, opened)).0 ≡ true)
      nothing_kept n t = cc t

      received :
          (size : ℤ)
          → r.0 ≡ some size
          → download_file_ssl T L junk name path (c, f) ≡ receive_body T L path k size (r.1, opened)
          → Keeps k path c (download_file_ssl T L junk name path (c, f)).1
      received (negsuc n) e through = absurd (nothing_kept n (ap (λ q. q.0) (sym through) ∙ ok))
      received (pos n) e through =
          let (message, len, says, first) = ask-takes T L C header c (pos n) e in
          let (text, long, rest, held) =
            receive_body-keeps T L C F path k n r.1 opened (ap (λ q. q.0) (sym through) ∙ ok) in
          (
            n,
            message,
            text,
            len,
            says,
            long,
            first
                ∙ ap (λ b. message ++ b) rest
                ∙ ap (λ q. message ++ (text ++ C.incoming q.1.0)) (sym through),
            ap (λ q. F.contents q.1.1 path) through ∙ held,
          )
