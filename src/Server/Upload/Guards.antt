-- ===== src/Server/Upload/Guards.antt =====
-- What `handle_upload_request` refuses, and what it has to have seen before it stores anything.
use daemon_file_hosting.Base.{
  ℕ, zero, suc, ◌+◌, ◌≡◌, refl, ◌∙◌, ◌⊎◌, inl, inr, true, false, not, [], Option, none, some, Bytes,
  c_string, bytes_eq, bytes_eq_sound, arith, Bool-cases, Option-cases, if◌then◌else◌, ltb, ◌++◌,
  ◌-◌,
}
use daemon_file_hosting.Base.Int.{ℤ, pos_part, to_size}
use daemon_file_hosting.External.{Platform}
use daemon_file_hosting.World.{World, malloc}
use daemon_file_hosting.Protocol.{
  RequestHeader, buffer_size, resp_success, resp_permission_denied, resp_integrity_error,
  resp_error,
}
use daemon_file_hosting.Path.{is_unsafe}
use daemon_file_hosting.Transfer.{ssl_recv_all}
use daemon_file_hosting.Hash.{compute_buffer_blake3}
use daemon_file_hosting.Server.Reply.{respond}
use daemon_file_hosting.Server.Upload.{
  is_bad_recipient, handle_upload_request, receive_upload, receive_file, receive_loop,
  accept_upload,
}

-- What a request must satisfy to be let in.
pub record IsAdmissible {P : Platform} (w : World P) (req : RequestHeader) : Type 0 where
  pub ready : w.g_file_crypto.initialized ≡ true
  pub safe : is_unsafe (c_string req.filename) ≡ false
  pub addressed : is_bad_recipient (c_string req.recipient) ≡ false

module _ (P : Platform) where
  -- A request that is not let in gets one reply and nothing else happens: an error while the
  -- server has no key, and a refusal of permission for a bad name or a bad recipient.
  pub handle_upload_request_refuses :
      (req : RequestHeader) (fingerprint : Bytes) (w : World P)
      → ¬ IsAdmissible w req
      → handle_upload_request P req fingerprint w ≡ (
        tt,
        (respond P
            (if w.g_file_crypto.initialized then resp_permission_denied else resp_error)
            w).1,
      )
  unfolding handle_upload_request
  handle_upload_request_refuses req fingerprint w no_entry =
      elim (Bool-cases w.g_file_crypto.initialized) [
        | inr cold ↦ ground arith
        | inl ready ↦ elim (Bool-cases (is_unsafe (c_string req.filename))) [
          | inl bad ↦ ground arith
          | inr safe ↦ elim (Bool-cases (is_bad_recipient (c_string req.recipient))) [
            | inl bad ↦ ground arith
            | inr addressed ↦
                absurd (no_entry (record { ready = ready; safe = safe; addressed = addressed }))
          ]
        ]
      ]

  -- A request that is let in is answered with success, and then its data are received.
  pub handle_upload_request_enters :
      (req : RequestHeader) (fingerprint : Bytes) (w : World P)
      → IsAdmissible w req
      → let r = respond P resp_success w in
        handle_upload_request P req fingerprint w
        ≡ (if not r.0 then (tt, r.1) else receive_upload P req fingerprint r.1)
  unfolding handle_upload_request
  handle_upload_request_enters req fingerprint w entry =
      elim (Bool-cases (respond P resp_success w).0) [ inl t ↦ ground arith | inr f ↦ ground arith ]

  -- The files and the database are as they were.
  pub record Untouched (w w' : World P) : Type 0 where
    pub files_same : w'.files ≡ w.files
    pub db_same : w'.db ≡ w.db

  Untouched-before :
      (w w' w'' : World P) → w'.files ≡ w.files → w'.db ≡ w.db → Untouched w' w'' → Untouched w w''
  Untouched-before w w' w'' f d u = record {
    files_same = u.files_same ∙ f;
    db_same = u.db_same ∙ d;
  }

  respond-Untouched : (status : ℕ) (w : World P) → Untouched w (respond P status w).1
  unfolding respond
  respond-Untouched status w = record { files_same = refl; db_same = refl }

  receive_loop-Untouched :
      (fuel n : ℕ) (got : Bytes) (w : World P) → Untouched w (receive_loop P fuel n got w).1
  unfolding receive_loop
  receive_loop-Untouched zero n got w = record { files_same = refl; db_same = refl }
  receive_loop-Untouched (suc fuel) zero got w = record { files_same = refl; db_same = refl }
  receive_loop-Untouched (suc fuel) (suc n) got w =
      let to_read = if ltb (suc n) buffer_size then suc n else buffer_size in
      let r = ssl_recv_all P.tls to_read w.conn in
      elim (Option-cases r.0) [
        | inl lost ↦ rw (lost, receive_loop) (record { files_same = refl; db_same = refl })
        | inr (piece, here) ↦
            rw (here, receive_loop)
              (Untouched-before _ _ _ refl refl (
                receive_loop-Untouched fuel (suc n - to_read) (got ++ piece)
                  (record w { conn = r.1 })))
      ]

  receive_file-Untouched : (size : ℤ) (w : World P) → Untouched w (receive_file P size w).1
  unfolding receive_file
  receive_file-Untouched size w = receive_loop-Untouched (pos_part size + 1) (pos_part size) [] w

  -- The state in which the data begin to come: the reply is sent, and there is a block for them.
  abbrev pub data_begin : RequestHeader → World P → World P
  data_begin req w = (malloc P (to_size req.filesize) (respond P resp_success w).1).1

  -- Why an upload may have changed something: the request was let in, all of its bytes arrived, and
  -- their hash is the one that the request announced.
  pub record IsVerified (req : RequestHeader) (w : World P) : Type 0 where
    pub admissible : IsAdmissible w req
    pub text : Bytes
    pub arrived : (receive_file P req.filesize (data_begin req w)).0 ≡ some text
    pub hashed : compute_buffer_blake3 P.blake3 text ≡ req.file_hash

  accept_upload-verified :
      (req : RequestHeader) (fingerprint text : Bytes) (w : World P)
      → Untouched w (accept_upload P req fingerprint text w).1
        ⊎ (compute_buffer_blake3 P.blake3 text ≡ req.file_hash)
  unfolding accept_upload
  accept_upload-verified req fingerprint text w =
      let hash = compute_buffer_blake3 P.blake3 text in
      elim (Bool-cases (bytes_eq hash req.file_hash)) [
        | inl same ↦ inr (bytes_eq_sound hash req.file_hash same)
        | inr differ ↦ inl (rw (differ, accept_upload) (respond-Untouched resp_integrity_error w))
      ]

  receive_upload-IsVerified :
      (req : RequestHeader) (fingerprint : Bytes) (w : World P)
      → IsAdmissible w req
      → let v = (respond P resp_success w).1 in
        Untouched w v → Untouched w (receive_upload P req fingerprint v).1 ⊎ IsVerified req w
  unfolding receive_upload
  receive_upload-IsVerified req fingerprint w entry u =
      elim (Bool-cases (P.system.malloc v.heap (to_size req.filesize)).0) [
        | inr full ↦ inl (
            rw (full, receive_upload)
              (Untouched-before w begun _ u.files_same u.db_same
                (respond-Untouched resp_error begun)))
        | inl room ↦ received room (Option-cases r.0)
      ]
    where
      v : World P
      v = (respond P resp_success w).1

      begun : World P
      begun = (malloc P (to_size req.filesize) v).1

      r : Option Bytes × World P
      r = receive_file P req.filesize begun

      kept : Untouched w r.1
      kept =
          Untouched-before w v r.1 u.files_same u.db_same
            (Untouched-before v begun r.1 refl refl (receive_file-Untouched req.filesize begun))

      accepted :
          (text : Bytes)
          → r.0 ≡ some text
          → Untouched r.1 (accept_upload P req fingerprint text r.1).1
            ⊎ (compute_buffer_blake3 P.blake3 text ≡ req.file_hash)
          → Untouched w (accept_upload P req fingerprint text r.1).1 ⊎ IsVerified req w
      accepted text e (inl same) = inl (Untouched-before w r.1 _ kept.files_same kept.db_same same)
      accepted text e (inr hashed) =
          inr (record { admissible = entry; text = text; arrived = e; hashed = hashed })

      received :
          (P.system.malloc v.heap (to_size req.filesize)).0 ≡ true
          → (r.0 ≡ none) ⊎ ((text : Bytes) × (r.0 ≡ some text))
          → Untouched w (receive_upload P req fingerprint v).1 ⊎ IsVerified req w
      received room (inl lost) = inl (rw (room, lost, receive_upload) kept)
      received room (inr (text, e)) =
          rw (room, e, receive_upload)
            (accepted text e (accept_upload-verified req fingerprint text r.1))

  -- After an upload request the files and the database are as they were, or the request was let
  -- in, all of its announced bytes were received after the reply, and their hash is the announced
  -- one.
  pub handle_upload_request_verifies :
      (req : RequestHeader) (fingerprint : Bytes) (w : World P)
      → Untouched w (handle_upload_request P req fingerprint w).1 ⊎ IsVerified req w
  unfolding handle_upload_request
  handle_upload_request_verifies req fingerprint w = elim (Bool-cases w.g_file_crypto.initialized) [
    | inr cold ↦ inl (refused (λ e. cc (e.ready)))
    | inl ready ↦ elim (Bool-cases (is_unsafe (c_string req.filename))) [
      | inl bad ↦ inl (refused (λ e. cc (e.safe)))
      | inr safe ↦ elim (Bool-cases (is_bad_recipient (c_string req.recipient))) [
        | inl bad ↦ inl (refused (λ e. cc (e.addressed)))
        | inr addressed ↦ entered (record { ready = ready; safe = safe; addressed = addressed })
      ]
    ]
  ]
    where
      refused : ¬ IsAdmissible w req → Untouched w (handle_upload_request P req fingerprint w).1
      refused no_entry =
          rw (handle_upload_request_refuses req fingerprint w no_entry) (respond-Untouched _ w)

      entered :
          IsAdmissible w req
          → Untouched w (handle_upload_request P req fingerprint w).1 ⊎ IsVerified req w
      entered entry = elim (Bool-cases (respond P resp_success w).0) [
        | inr gone ↦ inl (
            rw (handle_upload_request_enters req fingerprint w entry, gone)
              (respond-Untouched resp_success w))
        | inl ready ↦
            rw (handle_upload_request_enters req fingerprint w entry, ready)
              (receive_upload-IsVerified req fingerprint w entry (respond-Untouched resp_success w))
      ]
