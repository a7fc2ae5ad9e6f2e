-- ===== src/Exchange/Answered.antt =====
-- What a download puts on the connection, for every answer of the shelf.
use daemon_file_hosting.Base.{
  ℕ, ◌^◌, ◌<◌, ◌≤◌, ◌≡◌, refl, ◌∙◌, ap, ◌⊎◌, inl, inr, Bool, true, false, ◌++◌, ◌||◌, [],
  Bool-cases, Option, none, some, Bytes, bytes_eq, bytes_eq_sound, c_string, length, arith,
}
use daemon_file_hosting.Base.Int.{ℤ, pos, negsuc, ltb_ℤ}
use daemon_file_hosting.External.{Platform}
use daemon_file_hosting.External.Laws.{IsStream, IsGcm, IsFileStore}
use daemon_file_hosting.World.{World}
use daemon_file_hosting.Protocol.{
  RequestHeader, encode_response, resp_error, resp_file_not_found, resp_permission_denied,
  resp_invalid_offset,
}
use daemon_file_hosting.Path.{is_unsafe, storage_path}
use daemon_file_hosting.Cipher.{Sealed}
use daemon_file_hosting.Transfer.Sent.{KeepsMoving}
use daemon_file_hosting.Server.Reply.{respond}
use daemon_file_hosting.Server.Upload.{metadata, encrypt, write_file}
use daemon_file_hosting.Server.Upload.Stored.{is_closed, stored_text_is_served}
use daemon_file_hosting.Server.Download.{handle_download_request, serve_document}
use daemon_file_hosting.Server.Download.Access.{documents}
use daemon_file_hosting.Server.Download.Held.{Serves}
use daemon_file_hosting.Server.Store.{Item, Shelf, IsName}
use daemon_file_hosting.Server.Store.Downloads.{
  Answer, missing, denied, outside, holds, answer, item_answer, Answers,
  handle_download_request-Refines,
}
use daemon_file_hosting.Server.Store.Uploads.Accepting.{UploadLaws, Holds}
use daemon_file_hosting.Exchange.Replies.{respond_with-sent}
use daemon_file_hosting.Exchange.Texts.{text_reply, send_text-sent}

-- A reply with a status alone.
abbrev pub status_reply : ℕ → Bytes
status_reply status = encode_response (record { status = status; filesize = pos 0 })

-- An answer with a text is for its owner, and for an offset within it.
record IsGiven (there : Option Item) (offset : ℤ) (who text : Bytes) : Type 0 where
  from : ℕ
  at : offset ≡ pos from
  within : from ≤ length text
  is_there : there ≡ some (record { owner = who; text = text })

text_of : Answer → Bytes
text_of (holds text) = text
text_of _ = []

abbrev is_outside : ℤ → Bytes → Bool
is_outside offset text = ltb_ℤ offset (pos 0) || ltb_ℤ (pos (length text)) offset

item_answer-IsGiven :
    (there : Option Item) (offset : ℤ) (who text : Bytes)
    → item_answer there offset who ≡ holds text
    → IsGiven there offset who text
unfolding text_of
item_answer-IsGiven none offset who text h = cc h
item_answer-IsGiven (some item) (negsuc n) who text h =
    elim (Bool-cases (bytes_eq item.owner who)) [
      | inr other ↦ cc (rw other at h)
      | inl own ↦
          let low : is_outside (negsuc n) item.text ≡ true = ground arith in cc (rw (own, low) at h)
    ]
item_answer-IsGiven (some item) (pos k) who text h = elim (Bool-cases (bytes_eq item.owner who)) [
  | inr other ↦ cc (rw other at h)
  | inl own ↦ elim (Bool-cases (is_outside (pos k) item.text)) [
    | inl beyond ↦ cc (rw (own, beyond) at h)
    | inr inside ↦
        let is_text : item.text ≡ text = ap text_of (rw (own, inside) at h) in
        let is_who : item.owner ≡ who = bytes_eq_sound item.owner who own in
        record {
          from = k;
          at = refl;
          within = rw⁻¹ is_text (ground arith);
          is_there = λ i. some (record { owner = is_who i; text = is_text i });
        }
  ]
]

answer-IsGiven :
    (shelf : Shelf) (name who text : Bytes) (offset : ℤ)
    → answer shelf name offset who ≡ holds text
    → (is_unsafe name ≡ false) × IsGiven (shelf name) offset who text
unfolding answer
answer-IsGiven shelf name who text offset h = elim (Bool-cases (is_unsafe name)) [
  | inl bad ↦ cc (rw (bad, answer) at h)
  | inr safe ↦ (safe, item_answer-IsGiven (shelf name) offset who text (rw (safe, answer) at h))
]

module _ (P : Platform) (S : IsStream P.tls) (K : KeepsMoving P.tls) where
  respond-sent :
      (status : ℕ) (w : World P)
      → S.sent (respond P status w).1.conn ≡ S.sent w.conn ++ status_reply status
  unfolding respond
  respond-sent status w = respond_with-sent P S K status (pos 0) w

  -- The header and the text from the offset on, or an error.
  abbrev pub TextOrError : ℕ → Bytes → Bytes → Type 0
  TextOrError k text reply = (reply ≡ text_reply P S K k text) ⊎ (reply ≡ status_reply resp_error)

  -- What has been sent is a reply of a kind.
  abbrev pub Sends : World P → World P → (Bytes → Type 0) → Type 0
  Sends w v IsReply = (reply : Bytes) × (S.sent v.conn ≡ S.sent w.conn ++ reply) × IsReply reply

  pub Serves-Sends :
      (req : RequestHeader) (k : ℕ) (text : Bytes) (w : World P) (r : Unit {0} × World P)
      → req.offset ≡ pos k
      → length text < 2 ^ 31
      → Serves P req text w r
      → Sends w r.1 (TextOrError k text)
  unfolding respond
  Serves-Sends req k text w r at small (heap, engine, inl e) = (
    text_reply P S K k text,
    ap (λ q. S.sent q.1.conn) e ∙ send_text-sent P S K req k text _ at small,
    inl refl,
  )
  Serves-Sends req k text w r at small (heap, engine, inr e) = (
    status_reply resp_error,
    ap (λ q. S.sent q.1.conn) e
        ∙ respond_with-sent P S K resp_error (pos 0) (record w { heap = heap; engine = engine }),
    inr refl,
  )

  -- A text below 2 ^ 31 bytes was encrypted under the server's key and the whole ciphertext was
  -- written to the file of a name, which was closed without a failure. Later the file is as it was
  -- written, the key is the same, and the document holds the nonce, the tag and the owner. Then,
  -- over a connection that fails no write, a request of the owner's for the name, with an offset
  -- within the text, gets the header with the text's length and the text from the offset on, or an
  -- error, and nothing else.
  pub stored_text_is_sent :
      (G : IsGcm P.evp) (F : IsFileStore P.disk) (req : RequestHeader) (text iv owner : Bytes)
      (size : ℤ) (sealed : Sealed) (w v later : World P) (k : ℕ)
      → length text < 2 ^ 31
      → length iv ≡ 12
      → (encrypt P text (pos (length text)) iv w).0 ≡ some sealed
      → (write_file P (storage_path (c_string req.filename)) sealed.ciphertext v).0 ≡ true
      → is_closed P (storage_path (c_string req.filename)) sealed.ciphertext v ≡ true
      → later.files
        ≡ (write_file P (storage_path (c_string req.filename)) sealed.ciphertext v).1.files
      → later.g_file_crypto ≡ w.g_file_crypto
      → req.offset ≡ pos k
      → k ≤ length text
      → Sends later
          (serve_document P req owner
            (metadata (c_string req.filename) size iv sealed.tag owner)
            later).1
          (TextOrError k text)
  stored_text_is_sent G F req text iv owner size sealed w v later k small n12 enc wrote shut kept
        key_kept at inside =
      Serves-Sends req k text later _ at small (
        stored_text_is_served P G F req text iv owner size sealed w v later small n12 enc wrote shut
          kept key_kept (ap (λ o. is_outside o text) at ∙ ground arith))

module _ (P : Platform) (A : UploadLaws P) (K : KeepsMoving P.tls) where
  -- The bytes that an answer stands for.
  abbrev pub IsReplyTo : Answer → ℤ → Bytes → Type 0
  IsReplyTo missing offset reply = reply ≡ status_reply resp_file_not_found
  IsReplyTo denied offset reply = reply ≡ status_reply resp_permission_denied
  IsReplyTo outside offset reply = reply ≡ status_reply resp_invalid_offset
  IsReplyTo (holds text) offset reply =
      (k : ℕ) × (offset ≡ pos k) × (k ≤ length text) × TextOrError P A.stream K k text reply

  -- The reply to the answer; or, where the query has found nothing, that there is none.
  abbrev pub IsReply : RequestHeader → World P → Answer → Bytes → Type 0
  IsReply req w a reply =
      IsReplyTo a req.offset reply
      ⊎ ((documents P req w ≡ []) × (reply ≡ status_reply resp_file_not_found))

  Answers-Sends :
      (req : RequestHeader) (who : Bytes) (shelf : Shelf) (w : World P) (a : Answer)
      (r : Unit {0} × World P)
      → length (c_string req.filename) < 256
      → Holds P A w shelf
      → answer shelf (c_string req.filename) req.offset who ≡ a
      → Answers P req w a r
      → Sends P A.stream K w r.1 (IsReplyTo a req.offset)
  Answers-Sends req who shelf w missing r short held is e =
      (_, ap (λ q. A.stream.sent q.1.conn) e ∙ respond-sent P A.stream K _ w, refl)
  Answers-Sends req who shelf w denied r short held is e =
      (_, ap (λ q. A.stream.sent q.1.conn) e ∙ respond-sent P A.stream K _ w, refl)
  Answers-Sends req who shelf w outside r short held is e =
      (_, ap (λ q. A.stream.sent q.1.conn) e ∙ respond-sent P A.stream K _ w, refl)
  Answers-Sends req who shelf w (holds text) r short held is e =
      let (safe, g) = answer-IsGiven shelf (c_string req.filename) who text req.offset is in
      let name : IsName (c_string req.filename) = record { short = short; safe = safe } in
      let small = (held.held (c_string req.filename) _ name g.is_there).sealed_at.small in
      let (reply, out, kind) = Serves-Sends P A.stream K req g.from text w r g.at small e in
      (reply, out, (g.from, g.at, g.within, kind))

  -- In a world that holds a shelf, over a connection that fails no write, a download of a name
  -- below 256 bytes gets the bytes that the shelf's answer stands for, and nothing else: of an
  -- unsafe name and a stranger a denial, of a free name that it is not found, of an offset outside
  -- the text a refusal, and the owner the header with the text's length and the text from the
  -- offset on, or an error. Only where the query finds nothing a name that is on the shelf may be
  -- answered as not found. The shelf is held afterwards too.
  pub download_is_answered :
      (req : RequestHeader) (who : Bytes) (shelf : Shelf) (w : World P)
      → length (c_string req.filename) < 256
      → Holds P A w shelf
      → let v = (handle_download_request P req who w).1 in
        Sends P A.stream K w v (IsReply req w (answer shelf (c_string req.filename) req.offset who))
        × Holds P A v shelf
  download_is_answered req who shelf w short held =
      let (answered, after) = handle_download_request-Refines P A req who shelf w short held in
      (
        elim answered [
          | inl e ↦
              let (reply, out, kind) = Answers-Sends req who shelf w _ _ short held refl e in
              (reply, out, inl kind)
          | inr (none_found, e) ↦ (
            _,
            ap (λ q. A.stream.sent q.1.conn) e ∙ respond-sent P A.stream K _ w,
            inr (none_found, refl),
          )
        ],
        after,
      )
