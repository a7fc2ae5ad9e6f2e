-- ===== src/Exchange/Served.antt =====
-- A download from the shelf for which no call fails.
use daemon_file_hosting.Base.{
  ℕ, ◌≤◌, ◌≡◌, ◌∙◌, ap, false, ◌++◌, ◌||◌, some, Bytes, c_string, length, arith,
}
use daemon_file_hosting.Base.Int.{pos, ltb_ℤ}
use daemon_file_hosting.External.{Platform}
use daemon_file_hosting.World.{World}
use daemon_file_hosting.Protocol.{RequestHeader}
use daemon_file_hosting.Transfer.Sent.{KeepsMoving}
use daemon_file_hosting.Server.Download.{handle_download_request, serve_first}
use daemon_file_hosting.Server.Download.Access.{handle_download_request-safe}
use daemon_file_hosting.Server.Download.Success.{ReadsFiles, serve_document-Sends}
use daemon_file_hosting.Server.Store.{Item, Shelf, IsName, IsHeld}
use daemon_file_hosting.Server.Store.Laws.{AnswersQueries}
use daemon_file_hosting.Server.Store.Uploads.Accepting.{UploadLaws, Holds}
use daemon_file_hosting.Exchange.Texts.{text_reply, send_text-sent}

within_text : (k n : ℕ) → k ≤ n → (ltb_ℤ (pos k) (pos 0) || ltb_ℤ (pos n) (pos k)) ≡ false
within_text k n h = ground arith

module _ (P : Platform) (A : UploadLaws P) (K : KeepsMoving P.tls) (R : ReadsFiles P A.gcm A.files)
    (Q : AnswersQueries P.mongo A.docs) where
  -- Where no call fails, a request for a text that is on the shelf, by its owner and with an offset
  -- within the text, is answered with a header that announces the whole length and with the text
  -- from the offset on, and with nothing else.
  pub held_text_is_sent :
      (req : RequestHeader) (who text : Bytes) (k : ℕ) (shelf : Shelf) (w : World P)
      → IsName (c_string req.filename)
      → Holds P A w shelf
      → shelf (c_string req.filename) ≡ some (record { owner = who; text = text })
      → req.offset ≡ pos k
      → k ≤ length text
      → A.stream.sent (handle_download_request P req who w).1.conn
        ≡ A.stream.sent w.conn ++ text_reply P A.stream K k text
  held_text_is_sent req who text k shelf w n before there at inside =
      let name = c_string req.filename in
      let item : Item = record { owner = who; text = text } in
      let h : IsHeld P A.gcm A.files A.docs name item w = before.held name item n there in
      let within : (ltb_ℤ req.offset (pos 0) || ltb_ℤ (pos (length text)) req.offset) ≡ false =
        ap (λ o. ltb_ℤ o (pos 0) || ltb_ℤ (pos (length text)) o) at
        ∙ within_text k (length text) inside in
      let (heap, engine, sends) =
        serve_document-Sends P A.gcm A.files R req text h.iv h.tag who h.size w h.sealed_at
          within in
      let served =
        handle_download_request-safe P req who w n.safe
        ∙ ap (λ docs. serve_first P req who docs w) (Q.find_all w.db name ∙ h.first)
        ∙ sends in
      ap (λ r. A.stream.sent r.1.conn) served
      ∙ send_text-sent P A.stream K req k text (record w { heap = heap; engine = engine }) at
          h.sealed_at.small
