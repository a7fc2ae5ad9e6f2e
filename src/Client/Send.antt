-- ===== src/Client/Send.antt =====
-- What the client has sent of a file.
use daemon_file_hosting.Base.{
  ℕ, zero, suc, ◌+◌, ◌^◌, ◌<◌, ◌≡◌, sym, ◌∙◌, ap, inl, inr, true, ◌++◌, [], ◌∷◌, Bytes, length,
  length-take, take, drop, take-append-drop, append_assoc, append-nil, arith, Bool-cases,
}
use daemon_file_hosting.External.{Tls}
use daemon_file_hosting.External.Laws.{IsStream}
use daemon_file_hosting.Protocol.{buffer_size}
use daemon_file_hosting.Transfer.{ssl_send_all}
use daemon_file_hosting.Transfer.Apart.{ssl_send_all-whole}
use daemon_file_hosting.Client.{LocalDisk, send_pieces, send_text}

module _ (T : Tls) (L : LocalDisk) (S : IsStream T) where
  send_pieces-more :
      (fuel b : ℕ) (text : Bytes) (c : T.Conn)
      → (ssl_send_all T (take buffer_size (b ∷ text)) c).0 ≡ true
      → send_pieces T L (suc fuel) (b ∷ text) c
        ≡ send_pieces T L fuel
            (drop buffer_size (b ∷ text))
            (ssl_send_all T (take buffer_size (b ∷ text)) c).1
  unfolding send_pieces
  send_pieces-more fuel b text c h = rw (h, send_pieces)

  send_pieces-sent :
      (fuel : ℕ) (text : Bytes) (c : T.Conn)
      → (send_pieces T L fuel text c).0 ≡ true
      → S.sent (send_pieces T L fuel text c).1 ≡ S.sent c ++ text
  unfolding send_pieces
  send_pieces-sent zero text c t = cc t
  send_pieces-sent (suc fuel) [] c t = sym (append-nil (S.sent c))
  send_pieces-sent (suc fuel) (b ∷ text) c t =
      let piece = take buffer_size (b ∷ text) in
      let rest = drop buffer_size (b ∷ text) in
      elim (Bool-cases (ssl_send_all T piece c).0) [
        | inr lost ↦ cc (rw (lost, send_pieces) at t)
        | inl gone ↦
            let small : length piece < 2 ^ 31 = omega (arith, length-take buffer_size (b ∷ text)) in
            let go_on = send_pieces-more fuel b text c gone in
            let rest_sent =
              send_pieces-sent fuel rest (ssl_send_all T piece c).1
                (ap (λ r. r.0) (sym go_on) ∙ t) in
            ap (λ r. S.sent r.1) go_on
            ∙ rest_sent
            ∙ ap (λ b. b ++ rest) (ssl_send_all-whole T S piece c small gone)
            ∙ append_assoc (S.sent c) piece rest
            ∙ ap (λ b. S.sent c ++ b) (take-append-drop buffer_size (b ∷ text))
      ]

  -- When `send_text` reports a text of any length as sent, the whole text has gone out, in order
  -- and once.
  pub send_text-sent :
      (text : Bytes) (c : T.Conn)
      → (send_text T L text c).0 ≡ true
      → S.sent (send_text T L text c).1 ≡ S.sent c ++ text
  unfolding send_text
  send_text-sent text c t = send_pieces-sent (length text + 1) text c t
