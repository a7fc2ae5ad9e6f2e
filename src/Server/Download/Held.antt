-- ===== src/Server/Download/Held.antt =====
-- A download of a text that the disk holds sealed.
use daemon_file_hosting.Base.{
  ℕ, ◌^◌, ◌<◌, ◌≡◌, refl, sym, ◌∙◌, ap, ◌⊎◌, inl, inr, true, false, ◌||◌, Option, none, some, Bytes,
  c_string, bytes_eq_refl, length, arith, ◌==◌, Bool-cases, Option-cases,
}
use daemon_file_hosting.Base.Int.{ℤ, pos, size_to_int, size_to_int-small, ltb_ℤ}
use daemon_file_hosting.Bson.{Doc}
use daemon_file_hosting.External.{Platform}
use daemon_file_hosting.External.Laws.{IsGcm, IsFileStore}
use daemon_file_hosting.World.{World, FileCrypto, malloc}
use daemon_file_hosting.Protocol.{RequestHeader, resp_error, resp_invalid_offset}
use daemon_file_hosting.Path.{storage_path}
use daemon_file_hosting.Cipher.{enhanced_aes_gcm_decrypt}
use daemon_file_hosting.Cipher.RoundTrip.{decrypt-opens}
use daemon_file_hosting.Server.Reply.{respond}
use daemon_file_hosting.Server.Upload.{metadata}
use daemon_file_hosting.Server.Download.{
  may_read, seal_of, decrypt, finish, send_text, open_with, open_text, read_file, serve_stat,
  serve_document,
}
use daemon_file_hosting.Server.Download.Access.{may_read-metadata}

-- The nonce and the tag of a document of the server's are found again.
pub seal_of-metadata :
    (name : Bytes) (size : ℤ) (iv tag owner : Bytes)
    → length iv ≡ 12
    → length tag ≡ 16
    → seal_of (metadata name size iv tag owner) ≡ some (iv, tag)
unfolding seal_of metadata
seal_of-metadata name size iv tag owner h k = rw (h, k, seal_of)

module _ (P : Platform) where
  -- The text is sent, or the reply is an error, from a state that differs from one in the heap and
  -- the engine of the ciphers alone.
  abbrev pub Serves : RequestHeader → Bytes → World P → Unit {0} × World P → Type 0
  Serves req text w r =
      (heap : P.system.Heap) × (engine : P.evp.Engine) × ((r
          ≡ send_text P req text (record w { heap = heap; engine = engine }))
        ⊎ (r ≡ finish P resp_error (record w { heap = heap; engine = engine })))

  open_with-Serves :
      (req : RequestHeader) (size : ℕ) (ciphertext iv tag text : Bytes) (w : World P)
      → ((v : World P) (out : Bytes)
          → v.g_file_crypto ≡ w.g_file_crypto
          → (decrypt P ciphertext size (iv, tag) v).0 ≡ some out
          → out ≡ text)
      → Serves req text w (open_with P req size ciphertext (some (iv, tag)) w)
  unfolding decrypt
  open_with-Serves req size ciphertext iv tag text w opens =
      elim (Bool-cases (P.system.malloc w.heap size).0) [
        | inr full ↦ (v.heap, v.engine, inr (rw full))
        | inl room ↦ opened room (Option-cases r.0)
      ]
    where
      v : World P
      v = (malloc P size w).1

      r : Option Bytes × World P
      r = decrypt P ciphertext size (iv, tag) v

      opened :
          (P.system.malloc w.heap size).0 ≡ true
          → (r.0 ≡ none) ⊎ ((out : Bytes) × (r.0 ≡ some out))
          → Serves req text w (open_with P req size ciphertext (some (iv, tag)) w)
      opened room (inl lost) = (r.1.heap, r.1.engine, inr (rw (room, lost)))
      opened room (inr (out, e)) = (
        r.1.heap,
        r.1.engine,
        inl (rw (room, e) (ap (λ t. send_text P req t r.1) (opens v out refl e))),
      )

  pub read_file-open :
      (req : RequestHeader) (doc : Doc) (ciphertext : Bytes) (w : World P)
      → P.disk.fopen_read w.files (storage_path (c_string req.filename)) ≡ true
      → (P.system.malloc w.heap (length ciphertext)).0 ≡ true
      → P.disk.fread w.files (storage_path (c_string req.filename)) (length ciphertext) ≡ ciphertext
      → read_file P req doc (length ciphertext) w
        ≡ open_text P req doc (length ciphertext) ciphertext (malloc P (length ciphertext) w).1
  unfolding read_file
  read_file-open req doc ciphertext w is_open room same =
      let all : (length ciphertext == length ciphertext) ≡ true = ground arith in
      rw (is_open, room, same, all, read_file)

  read_file-Serves :
      (req : RequestHeader) (name owner ciphertext iv tag text : Bytes) (size : ℤ) (w : World P)
      → P.disk.fread w.files (storage_path (c_string req.filename)) (length ciphertext) ≡ ciphertext
      → length iv ≡ 12
      → length tag ≡ 16
      → ((v : World P) (out : Bytes)
          → v.g_file_crypto ≡ w.g_file_crypto
          → (decrypt P ciphertext (length ciphertext) (iv, tag) v).0 ≡ some out
          → out ≡ text)
      → Serves req text w (read_file P req (metadata name size iv tag owner) (length ciphertext) w)
  unfolding read_file open_text
  read_file-Serves req name owner ciphertext iv tag text size w same hi ht opens =
      elim (Bool-cases (P.disk.fopen_read w.files (storage_path (c_string req.filename)))) [
        | inr closed ↦ (w.heap, w.engine, inr (rw (closed, read_file)))
        | inl is_open ↦ elim (Bool-cases (P.system.malloc w.heap (length ciphertext)).0) [
          | inr full ↦ (
            (malloc P (length ciphertext) w).1.heap,
            w.engine,
            inr (rw (is_open, full, read_file)),
          )
          | inl room ↦
              rw
                (read_file-open req (metadata name size iv tag owner) ciphertext w is_open room same
                  ∙ ap
                      (λ m.
                        open_with P req (length ciphertext) ciphertext m
                          (malloc P (length ciphertext) w).1)
                      (seal_of-metadata name size iv tag owner hi ht))
                (open_with-Serves req (length ciphertext) ciphertext iv tag text
                  (malloc P (length ciphertext) w).1 opens)
        ]
      ]

  pub serve_document-stat :
      (req : RequestHeader) (fingerprint : Bytes) (doc : Doc) (w : World P) {size : ℕ}
      → may_read doc fingerprint ≡ true
      → P.disk.stat w.files (storage_path (c_string req.filename)) ≡ some size
      → serve_document P req fingerprint doc w ≡ serve_stat P req doc (some size) w
  unfolding serve_document
  serve_document-stat req fingerprint doc w h k = rw (h, k, serve_document)

  -- A file holds the ciphertext of a text under the server's key and a nonce, and a tag is the
  -- text's.
  pub record IsSealedAt (G : IsGcm P.evp) (S : IsFileStore P.disk) (path iv tag text : Bytes)
      (w : World P) : Type 0 where
    pub small : length text < 2 ^ 31
    pub nonce : length iv ≡ 12
    pub held : S.contents w.files path ≡ some (G.gcm_ciphertext w.g_file_crypto.key iv text)
    pub mark : tag ≡ G.gcm_tag w.g_file_crypto.key iv text

  decrypt-IsSealedAt :
      (G : IsGcm P.evp) (key iv text out : Bytes) (u : World P)
      → length text < 2 ^ 31
      → u.g_file_crypto.key ≡ key
      → (decrypt P
          (G.gcm_ciphertext key iv text)
          (length (G.gcm_ciphertext key iv text))
          (iv, G.gcm_tag key iv text)
          u).0
        ≡ some out
      → out ≡ text
  unfolding decrypt
  decrypt-IsSealedAt G key iv text out u small same e =
      let number : size_to_int (length (G.gcm_ciphertext key iv text)) ≡ pos (length text) =
        ap size_to_int (G.length-gcm_ciphertext key iv text)
        ∙ size_to_int-small (length text) small in
      decrypt-opens P.evp G text key iv u.engine out (
        sym (λ i.
          (enhanced_aes_gcm_decrypt P.evp (G.gcm_ciphertext key iv text) (number i) (same i) iv
            (G.gcm_tag key iv text) u.engine).0)
        ∙ e)

  pub held_is_served :
      (G : IsGcm P.evp) (S : IsFileStore P.disk) (req : RequestHeader) (text iv tag owner : Bytes)
      (size : ℤ) (w : World P)
      → IsSealedAt G S (storage_path (c_string req.filename)) iv tag text w
      → (ltb_ℤ req.offset (pos 0) || ltb_ℤ (pos (length text)) req.offset) ≡ false
      → Serves req text w
          (serve_document P req owner (metadata (c_string req.filename) size iv tag owner) w)
  held_is_served G S req text iv tag owner size w h within =
      rw (serve_document-stat req owner doc w mine (S.stat-contents w.files path ct h.held)) (
        rw within_file (
          read_file-Serves req (c_string req.filename) owner ct iv tag text size w
            (S.fread-contents w.files path ct h.held) h.nonce
            (ap length h.mark ∙ G.length-gcm_tag key iv text)
            (λ u out same e.
              decrypt-IsSealedAt G key iv text out u h.small (ap (λ (c : FileCrypto). c.key) same)
                (ap (λ t. (decrypt P ct (length ct) (iv, t) u).0) (sym h.mark) ∙ e))))
    where
      path : Bytes
      path = storage_path (c_string req.filename)

      doc : Doc
      doc = metadata (c_string req.filename) size iv tag owner

      mine : may_read doc owner ≡ true
      mine = may_read-metadata (c_string req.filename) size iv tag owner owner ∙ bytes_eq_refl owner

      key : Bytes
      key = w.g_file_crypto.key

      ct : Bytes
      ct = G.gcm_ciphertext key iv text

      within_file : (ltb_ℤ req.offset (pos 0) || ltb_ℤ (pos (length ct)) req.offset) ≡ false
      within_file =
          ap (λ (n : ℕ). ltb_ℤ req.offset (pos 0) || ltb_ℤ (pos n) req.offset)
            (G.length-gcm_ciphertext key iv text)
          ∙ within

  -- An offset that is not within the text is refused.
  pub held_is_outside :
      (G : IsGcm P.evp) (S : IsFileStore P.disk) (req : RequestHeader) (text iv tag owner : Bytes)
      (size : ℤ) (w : World P)
      → IsSealedAt G S (storage_path (c_string req.filename)) iv tag text w
      → (ltb_ℤ req.offset (pos 0) || ltb_ℤ (pos (length text)) req.offset) ≡ true
      → serve_document P req owner (metadata (c_string req.filename) size iv tag owner) w
        ≡ (tt, (respond P resp_invalid_offset w).1)
  held_is_outside G S req text iv tag owner size w h beyond =
      let path = storage_path (c_string req.filename) in
      let ct = G.gcm_ciphertext w.g_file_crypto.key iv text in
      let out : (ltb_ℤ req.offset (pos 0) || ltb_ℤ (pos (length ct)) req.offset) ≡ true =
        ap (λ (n : ℕ). ltb_ℤ req.offset (pos 0) || ltb_ℤ (pos n) req.offset)
          (G.length-gcm_ciphertext w.g_file_crypto.key iv text)
        ∙ beyond in
      let mine : may_read (metadata (c_string req.filename) size iv tag owner) owner ≡ true =
        may_read-metadata (c_string req.filename) size iv tag owner owner ∙ bytes_eq_refl owner in
      rw
        (serve_document-stat req owner (metadata (c_string req.filename) size iv tag owner) w mine
          (S.stat-contents w.files path ct h.held))
        (rw out refl)
