-- ===== src/Exchange/Texts.antt =====
-- The reply of a download with a text.
use daemon_file_hosting.Base.{
  ℕ, ◌-◌, ◌^◌, ◌<◌, ◌≤◌, ◌≡◌, refl, sym, ◌∙◌, ap, false, ◌++◌, ◌∷◌, [], inl, inr, Bytes, length,
  length-drop, drop, append_assoc, append-nil, arith, Bool-cases,
}
use daemon_file_hosting.Base.Int.{pos, ltb_ℤ, ◌-ℤ◌}
use daemon_file_hosting.External.{Platform}
use daemon_file_hosting.External.Laws.{IsStream}
use daemon_file_hosting.World.{World}
use daemon_file_hosting.Protocol.{RequestHeader, ResponseHeader, encode_response, resp_success}
use daemon_file_hosting.Transfer.Sent.{KeepsMoving}
use daemon_file_hosting.Server.Reply.{send, respond_with}
use daemon_file_hosting.Server.Download.{send_text, tail_from}
use daemon_file_hosting.Exchange.Replies.{send-sent, respond_with-sent, append_proc_event-sent}

drop_all : (k : ℕ) (text : Bytes) → length text ≤ k → drop k text ≡ []
drop_all k text h = go (drop k text) (length-drop k text)
  where
    go : (s : Bytes) → length s ≡ length text - k → s ≡ []
    go [] e = refl
    go (b ∷ s) e = absurd (omega arith)

module _ (P : Platform) (S : IsStream P.tls) (K : KeepsMoving P.tls) where
  -- A reply with a text: the header with its whole length, and the text from the offset on.
  abbrev pub text_reply : ℕ → Bytes → Bytes
  text_reply k text =
      encode_response (record { status = resp_success; filesize = pos (length text) })
      ++ drop k text

  pub send_text-sent :
      (req : RequestHeader) (k : ℕ) (text : Bytes) (w : World P)
      → req.offset ≡ pos k
      → length text < 2 ^ 31
      → S.sent (send_text P req text w).1.conn ≡ S.sent w.conn ++ text_reply k text
  unfolding send_text ◌-ℤ◌
  send_text-sent req k text w at small =
      elim (Bool-cases (ltb_ℤ (pos 0) (pos (length text) -ℤ req.offset))) [
        | inl more ↦ rw more (
            append_proc_event-sent P S K _ _ _ sent
            ∙ send-sent P S K (tail_from req.offset text) begun fits
            ∙ (λ i. first i ++ tail_from (at i) text)
            ∙ append_assoc (S.sent w.conn) _ (drop k text))
        | inr all ↦ rw all (
            append_proc_event-sent P S K _ _ _ begun
            ∙ first
            ∙ ap (λ b. S.sent w.conn ++ b) (sym (append-nil _))
            ∙ ap (λ b. S.sent w.conn ++ (encode_response success ++ b))
                (sym (drop_all k text (over (rw at at all)))))
      ]
    where
      begun : World P
      begun = (respond_with P resp_success (pos (length text)) w).1

      sent : World P
      sent = (send P (tail_from req.offset text) begun).1

      first :
          S.sent begun.conn
          ≡ S.sent w.conn
            ++ encode_response (record { status = resp_success; filesize = pos (length text) })
      first = respond_with-sent P S K resp_success (pos (length text)) w

      success : ResponseHeader
      success = record { status = resp_success; filesize = pos (length text) }

      over : ltb_ℤ (pos 0) (pos (length text) -ℤ pos k) ≡ false → length text ≤ k
      over h = ground arith

      fits : length (tail_from req.offset text) < 2 ^ 31
      fits = rw at (omega (arith, length-drop k text))
