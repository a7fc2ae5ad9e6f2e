-- ===== src/Server/Store/Downloads.antt =====
-- `handle_download_request` on the shelf.
use daemon_file_hosting.Base.{
  ℕ, ◌<◌, ◌≡◌, refl, sym, subst, ap, bytes_eq_sound, ◌∙◌, ◌⊎◌, List, [], ◌∷◌, ◌++◌, inl, inr, ◌||◌,
  Option, none, some, Bytes, codes, bytes_eq, Bool-cases, c_string, length, if◌then◌else◌,
}
use daemon_file_hosting.Base.Int.{ℤ, pos, ltb_ℤ, ◌-ℤ◌}
use daemon_file_hosting.Bson.{Doc}
use daemon_file_hosting.External.{Platform}
use daemon_file_hosting.World.{World}
use daemon_file_hosting.Protocol.{
  RequestHeader, resp_success, resp_error, resp_file_not_found, resp_permission_denied,
  resp_invalid_offset,
}
use daemon_file_hosting.Path.{is_unsafe, storage_path}
use daemon_file_hosting.Proc.{append_proc_event}
use daemon_file_hosting.Server.Reply.{respond, respond_with, send}
use daemon_file_hosting.Server.Upload.{metadata}
use daemon_file_hosting.Server.Download.{
  tail_from, send_text, serve_first, serve_document, handle_download_request,
}
use daemon_file_hosting.Server.Download.Access.{documents, serve_document-denied, may_read-metadata}
use daemon_file_hosting.Server.Download.Held.{Serves, held_is_served, held_is_outside}
use daemon_file_hosting.Server.Store.{Item, Shelf, IsName, IsHeld}
use daemon_file_hosting.Server.Store.Quiet.{
  IsQuiet, Everywhere, quiet_refl, quiet_trans, respond-quiet, respond_with-quiet, send-quiet,
  append_proc_event-quiet, Refines-quiet,
}
use daemon_file_hosting.Server.Store.Uploads.Accepting.{UploadLaws, Holds}

-- What a client is to get that asks for a name.
pub data Answer : Type 0 where
  missing : Answer
  denied : Answer
  outside : Answer
  holds : Bytes → Answer

-- Only the owner may read, and only within the text.
abbrev pub item_answer : Option Item → ℤ → Bytes → Answer
item_answer none offset who = missing
item_answer (some item) offset who =
    if bytes_eq item.owner who
    then (if ltb_ℤ offset (pos 0) || ltb_ℤ (pos (length item.text)) offset
        then outside
        else holds item.text)
    else denied

unfoldable pub answer : Shelf → Bytes → ℤ → Bytes → Answer
answer shelf name offset who =
    if is_unsafe name then denied else item_answer (shelf name) offset who

module _ (P : Platform) where
  -- The reply that an answer stands for.
  abbrev pub Answers : RequestHeader → World P → Answer → Unit {0} × World P → Type 0
  Answers req w missing r = r ≡ (tt, (respond P resp_file_not_found w).1)
  Answers req w denied r = r ≡ (tt, (respond P resp_permission_denied w).1)
  Answers req w outside r = r ≡ (tt, (respond P resp_invalid_offset w).1)
  Answers req w (holds text) r = Serves P req text w r

head_same : {d e : Doc} {ds es : List Doc} → d ∷ ds ≡ e ∷ es → d ≡ e
head_same {d = d} h = ap (head_or d) h
  where
    head_or : Doc → List Doc → Doc
    head_or x [] = x
    head_or x (y ∷ ys) = y

module _ (P : Platform) (A : UploadLaws P) where
  abbrev Still : World P → World P → Type 0
  Still w v = IsQuiet P A.files A.docs w v

  Still-trans : (w v u : World P) → Still w v → Still v u → Still w u
  Still-trans w v u a b = quiet_trans P A.files A.docs (Everywhere P A.files A.docs) w v u a b

  send_text-Still :
      (req : RequestHeader) (text : Bytes) (w : World P) → Still w (send_text P req text w).1
  unfolding send_text
  send_text-Still req text w = elim (Bool-cases (ltb_ℤ (pos 0) (pos (length text) -ℤ req.offset))) [
    | inl more ↦
        rw more (Still-trans w sent _ (Still-trans w begun sent first data_sent) (last sent))
    | inr all ↦ rw all (Still-trans w begun _ first (last begun))
  ]
    where
      last :
          (v : World P)
          → Still v
              (append_proc_event P
                (storage_path (c_string req.filename))
                (codes "download")
                (codes "success")
                v).1
      last v = append_proc_event-quiet P A.files A.docs (Everywhere P A.files A.docs) _ _ _ v

      begun : World P
      begun = (respond_with P resp_success (pos (length text)) w).1

      sent : World P
      sent = (send P (tail_from req.offset text) begun).1

      first : Still w begun
      first = respond_with-quiet P A.files A.docs (Everywhere P A.files A.docs) resp_success _ w

      data_sent : Still begun sent
      data_sent = send-quiet P A.files A.docs (Everywhere P A.files A.docs) _ begun

  reply-Still : (status : ℕ) (w : World P) → Still w (respond P status w).1
  reply-Still status w = respond-quiet P A.files A.docs (Everywhere P A.files A.docs) status w

  moved-Still :
      (w : World P) (heap : P.system.Heap) (engine : P.evp.Engine)
      → Still w (record w { heap = heap; engine = engine })
  moved-Still w heap engine =
      quiet_refl P A.files A.docs (Everywhere P A.files A.docs) w _ refl refl refl

  -- Whatever the answer is, the reply changes nothing on the shelf.
  Answers-Still :
      (req : RequestHeader) (a : Answer) (w : World P) (r : Unit {0} × World P)
      → Answers P req w a r
      → Still w r.1
  Answers-Still req missing w r e = rw e (reply-Still resp_file_not_found w)
  Answers-Still req denied w r e = rw e (reply-Still resp_permission_denied w)
  Answers-Still req outside w r e = rw e (reply-Still resp_invalid_offset w)
  Answers-Still req (holds text) w r (heap, engine, inl e) =
      rw e (Still-trans w _ _ (moved-Still w heap engine) (send_text-Still req text _))
  Answers-Still req (holds text) w r (heap, engine, inr e) =
      rw e (Still-trans w _ _ (moved-Still w heap engine) (reply-Still resp_error _))

  held_is_answered :
      (req : RequestHeader) (who : Bytes) (item : Item) (w : World P)
      → (h : IsHeld P A.gcm A.files A.docs (c_string req.filename) item w)
      → Answers P req w (item_answer (some item) req.offset who) (
          serve_document P req who
            (metadata (c_string req.filename) h.size h.iv h.tag item.owner)
            w)
  held_is_answered req who item w h = elim (Bool-cases (bytes_eq item.owner who)) [
    | inr stranger ↦ rw stranger (
        serve_document-denied P req who _ w
          (may_read-metadata (c_string req.filename) h.size h.iv h.tag item.owner who ∙ stranger))
    | inl own ↦
        rw (own, sym (bytes_eq_sound item.owner who own))
          (elim (Bool-cases
            (ltb_ℤ req.offset (pos 0) || ltb_ℤ (pos (length item.text)) req.offset)) [
              | inl beyond ↦ rw beyond (
                  held_is_outside P A.gcm A.files req item.text h.iv h.tag item.owner h.size w
                    h.sealed_at beyond)
              | inr within ↦ rw within (
                  held_is_served P A.gcm A.files req item.text h.iv h.tag item.owner h.size w
                    h.sealed_at within)
            ])
  ]

  -- The query finds nothing, which it may do where it fails, and the reply is that there is none.
  abbrev Loses : RequestHeader → World P → Unit {0} × World P → Type 0
  Loses req w r = (documents P req w ≡ []) × (r ≡ (tt, (respond P resp_file_not_found w).1))

  abbrev pub AnswersOrLoses : RequestHeader → World P → Answer → Unit {0} × World P → Type 0
  AnswersOrLoses req w a r = Answers P req w a r ⊎ Loses req w r

  found_is_answered :
      (req : RequestHeader) (who : Bytes) (shelf : Shelf) (w : World P) (there : Option Item)
      (found : List Doc)
      → IsName (c_string req.filename)
      → Holds P A w shelf
      → shelf (c_string req.filename) ≡ there
      → (documents P req w ≡ found)
      → AnswersOrLoses req w (item_answer there req.offset who) (serve_first P req who found w)
  found_is_answered req who shelf w there [] n h e f = inr (f, refl)
  found_is_answered req who shelf w none (doc ∷ found) n h e f =
      let (lost, all) = A.docs.find_named w.db (c_string req.filename) in
      cc (sym (h.free (c_string req.filename) n e) ∙ all ∙ ap (λ ds. ds ++ lost) f)
  found_is_answered req who shelf w (some item) (doc ∷ found) n h e f =
      let i = h.held (c_string req.filename) item n e in
      let (lost, all) = A.docs.find_named w.db (c_string req.filename) in
      let whole = sym i.first ∙ all ∙ ap (λ ds. ds ++ lost) f in
      let is : metadata (c_string req.filename) i.size i.iv i.tag item.owner ≡ doc =
        head_same whole in
      inl (
        subst
          (λ d.
            Answers P req w (item_answer (some item) req.offset who) (serve_document P req who d w))
          is (held_is_answered req who item w i))

  AnswersOrLoses-Still :
      (req : RequestHeader) (a : Answer) (w : World P) (r : Unit {0} × World P)
      → AnswersOrLoses req w a r
      → Still w r.1
  AnswersOrLoses-Still req a w r (inl e) = Answers-Still req a w r e
  AnswersOrLoses-Still req a w r (inr (_, e)) = rw e (reply-Still resp_file_not_found w)

  -- In a world that holds a shelf, a download is answered as the shelf says: an unsafe name and a
  -- stranger are denied, a name that is free is not found, an offset outside the text is refused,
  -- and the owner gets the text that is on the shelf, or an error. Where the query fails, a name that
  -- is on the shelf may be answered as not found. The shelf is held afterwards too.
  pub handle_download_request-Refines :
      (req : RequestHeader) (who : Bytes) (shelf : Shelf) (w : World P)
      → length (c_string req.filename) < 256
      → Holds P A w shelf
      → AnswersOrLoses req w
          (answer shelf (c_string req.filename) req.offset who)
          (handle_download_request P req who w)
        × Holds P A (handle_download_request P req who w).1 shelf
  unfolding answer handle_download_request
  handle_download_request-Refines req who shelf w short h = (
    answered,
    Refines-quiet P A.gcm A.files A.docs (Everywhere P A.files A.docs) shelf w _
        (AnswersOrLoses-Still req _ w _ answered) (λ name item n e. tt) h,
  )
    where
      answered :
          AnswersOrLoses req w
            (answer shelf (c_string req.filename) req.offset who)
            (handle_download_request P req who w)
      answered = elim (Bool-cases (is_unsafe (c_string req.filename))) [
        | inl bad ↦ inl (rw (bad, handle_download_request) refl)
        | inr safe ↦ rw safe (
            found_is_answered req who shelf w (shelf (c_string req.filename)) (documents P req w)
              (record { short = short; safe = safe }) h refl refl)
      ]
