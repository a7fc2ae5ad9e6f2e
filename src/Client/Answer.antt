-- ===== src/Client/Answer.antt =====
-- The answer that the client awaits, and the list that it shows.
use daemon_file_hosting.Base.{
  ℕ, zero, suc, ◌+◌, ◌-◌, ◌%◌, ◌^◌, ◌<◌, ◌≡◌, refl, sym, ◌∙◌, ap, inl, inr, true, false, ◌++◌, ◌∷◌,
  drop, [], some, Bytes, length, arith, ltb, ◌==◌, Bool-cases, append-cut, Option-cases, append-nil,
}
use mathlib.Core.Option.{some-injective}
use daemon_file_hosting.Base.Int.{ℤ, pos, negsuc, pos_part, neg_part}
use daemon_file_hosting.External.{Tls}
use daemon_file_hosting.External.Laws.{IsStream}
use daemon_file_hosting.Protocol.{
  RequestHeader, ResponseHeader, encode_response, resp_success, cmd_list,
}
use daemon_file_hosting.Transfer.{arrived, ssl_send_all, ssl_recv_all}
use daemon_file_hosting.Transfer.Apart.{ssl_send_all-incoming}
use daemon_file_hosting.Transfer.Received.{ssl_recv_all-exact}
use daemon_file_hosting.Client.{
  LocalDisk, download_loop, piece_size, ask, encode_request, decode_response, response_size,
}
use daemon_file_hosting.Client.Header.{four_bytes, long_round_trip}
use daemon_file_hosting.Client.Receive.{IsLocalStore, download_loop-Moved}
use daemon_file_hosting.Client.Listing.{Shown, list_loop, show_list, list_files_ssl}

-- The response header of a status that fits and a `long long` is read as it was written.
pub decode_response-encode_response :
    (r : ResponseHeader)
    → r.status < 2 ^ 32
    → neg_part r.filesize < 2 ^ 63 + 1
    → pos_part r.filesize < 2 ^ 63
    → decode_response (encode_response r) ≡ r
unfolding decode_response encode_response
decode_response-encode_response r s lo hi =
    let status_fits : r.status % 2 ^ 32 ≡ r.status = omega arith in
    λ i. record {
      status = (four_bytes r.status ∙ status_fits) i;
      filesize = long_round_trip r.filesize (omega arith) hi i;
    }

-- The standard output as a disk of one file, which takes whatever is written.
abbrev stdout_disk : LocalDisk
stdout_disk = record {
  Files = Bytes;
  open_append = λ f path. (some (length f), f);
  open_write = λ f path. (true, []);
  append = λ f path text. (length text, f ++ text);
  size_of = λ f path. some (length f);
  read_all = λ f path. some (f, false);
}

stdout_IsLocalStore : IsLocalStore stdout_disk
stdout_IsLocalStore = record {
  contents = λ f path. some f;
  open_write-empty = λ f path opened. refl;
  append-whole = λ f path old text held whole. ap (λ o. some (o ++ text)) (some-injective _ _ held);
}

module _ (T : Tls) where
  -- The loop of the list is the loop of a download to the standard output.
  list_loop-eq-download_loop :
      (fuel size total : ℕ) (s : Shown T)
      → list_loop T fuel size total s ≡ download_loop T stdout_disk fuel [] size total s
  unfolding list_loop download_loop
  list_loop-eq-download_loop zero size total s = refl
  list_loop-eq-download_loop (suc fuel) size total (c, out) = elim (Bool-cases (ltb total size)) [
    | inr done ↦ rw (done, list_loop, download_loop) refl
    | inl again ↦ elim (Option-cases (arrived (T.ssl_read c (pos (piece_size (size - total)))).0)) [
      | inl stop ↦ rw (again, stop, list_loop, download_loop) refl
      | inr (piece, e) ↦
          let whole : (length piece == length piece) ≡ true = ground arith in
          rw (again, e, whole, list_loop, download_loop)
            (list_loop-eq-download_loop fuel size (total + length piece) _)
    ]
  ]

module _ (T : Tls) (L : LocalDisk) (S : IsStream T) where
  -- An announced size that `ask` reports came in as a header of status success, and nothing else
  -- was taken in.
  pub ask-takes :
      (header : RequestHeader) (c : T.Conn) (size : ℤ)
      → (ask T L header c).0 ≡ some size
      → (message : Bytes) × (length message ≡ response_size)
        × (decode_response message ≡ record { status = resp_success; filesize = size })
        × (S.incoming c ≡ message ++ S.incoming (ask T L header c).1)
  unfolding ask
  ask-takes header c size e =
      let sent = ssl_send_all T (encode_request header) c in
      let got = ssl_recv_all T response_size sent.1 in
      elim (Bool-cases sent.0) [
        | inr lost ↦ absurd (cc (rw (lost, ask) at e))
        | inl gone ↦ elim (Option-cases got.0) [
          | inl nothing ↦ absurd (cc (rw (gone, nothing, ask) at e))
          | inr (message, came) ↦
              elim (Bool-cases ((decode_response message).status == resp_success)) [
                | inr other ↦ absurd (cc (rw (gone, came, other, ask) at e))
                | inl ok ↦
                    let (len, all) =
                      ssl_recv_all-exact T S response_size sent.1 message (omega arith) came in
                    let size_is = some-injective _ _ (rw (gone, came, ok, ask) at e) in
                    let status_is : (decode_response message).status ≡ 0 = ground arith in
                    (
                      message,
                      len,
                      (λ i. record { status = status_is i; filesize = size_is i }),
                      rw (gone, came)
                          (sym (ssl_send_all-incoming T S (encode_request header) c) ∙ all),
                    )
              ]
        ]
      ]

  -- What a list that was shown has moved from the connection to the output.
  abbrev pub Moves : ℕ → Bytes → Bytes → Shown T → Type 0
  Moves n all out s =
      (text : Bytes) × (length text ≡ n) × (all ≡ text ++ S.incoming s.0) × (s.1 ≡ out ++ text)

  show_list-Moves :
      (size : ℤ) (c : T.Conn) (out : Bytes)
      → (show_list T size (c, out)).0 ≡ true
      → Moves (pos_part size) (S.incoming c) out (show_list T size (c, out)).1
  unfolding show_list stdout_IsLocalStore
  show_list-Moves (pos zero) c out t = ([], refl, refl, sym (append-nil out))
  show_list-Moves (negsuc n) c out t = ([], refl, refl, sym (append-nil out))
  show_list-Moves (pos (suc n)) c out t =
      let same = list_loop-eq-download_loop T (suc n + 1) (suc n) 0 (c, out) in
      let (text, len, came, shown) =
        download_loop-Moved T stdout_disk S stdout_IsLocalStore (suc n + 1) [] (suc n) 0 c out out
          refl (ap (λ r. r.0) (sym same) ∙ t) in
      let whole : suc n - 0 ≡ suc n = omega arith in
      rw same (text, len ∙ whole, came, some-injective _ _ shown)

  -- A list that is reported as shown came in behind a header of status success with its length,
  -- and exactly it, in order and once, has gone to the output; a length that is not positive shows
  -- nothing.
  pub list_files_ssl-shows :
      (junk : RequestHeader) (c : T.Conn) (out : Bytes)
      → (list_files_ssl T L junk (c, out)).0 ≡ true
      → (size : ℤ) × (message : Bytes) × (text : Bytes) × (length message ≡ response_size)
        × (decode_response message ≡ record { status = resp_success; filesize = size })
        × (length text ≡ pos_part size)
        × (S.incoming c ≡ message ++ (text ++ S.incoming (list_files_ssl T L junk (c, out)).1.0))
        × ((list_files_ssl T L junk (c, out)).1.1 ≡ out ++ text)
  unfolding list_files_ssl
  list_files_ssl-shows junk c out t =
      let header : RequestHeader = record junk {
        command = cmd_list;
        filename = 0 ∷ drop 1 junk.filename;
        filesize = pos 0;
      } in
      let r = ask T L header c in
      elim (Option-cases r.0) [
        | inl nothing ↦ absurd (cc (rw (nothing, list_files_ssl) at t))
        | inr (size, e) ↦
            let (message, len, says, first) = ask-takes header c size e in
            let (text, long, rest, shown) =
              show_list-Moves size r.1 out (rw (e, list_files_ssl) at t) in
            let through : list_files_ssl T L junk (c, out) ≡ show_list T size (r.1, out) =
              rw (e, list_files_ssl) in
            (
              size,
              message,
              text,
              len,
              says,
              long,
              first
                  ∙ ap (λ b. message ++ b) rest
                  ∙ ap (λ q. message ++ (text ++ S.incoming q.1.0)) (sym through),
              ap (λ q. q.1.1) through ∙ shown,
            )
      ]

  -- What was read at the start of a text that begins with a header and its data is that header and
  -- those data.
  pub reply-parts :
      (message after rest : Bytes) (h : ResponseHeader) (size : ℤ)
      → h.status < 2 ^ 32
      → neg_part h.filesize < 2 ^ 63 + 1
      → pos_part h.filesize < 2 ^ 63
      → length message ≡ response_size
      → decode_response message ≡ record { status = resp_success; filesize = size }
      → message ++ after ≡ encode_response h ++ rest
      → (h ≡ record { status = resp_success; filesize = size }) × (after ≡ rest)
  unfolding encode_response
  reply-parts message after rest h size s lo hi len says all =
      let (head, tail) = append-cut message after (encode_response h) rest len all in
      (sym (decode_response-encode_response h s lo hi) ∙ ap decode_response (sym head) ∙ says, tail)
