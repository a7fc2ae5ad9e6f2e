-- ===== src/Server/Download/Success.antt =====
-- A download for which no call fails sends the text.
use daemon_file_hosting.Base.{
  ℕ, ◌^◌, ◌<◌, ◌≡◌, refl, ◌∙◌, ap, true, false, ◌||◌, some, Bytes, bytes_eq_refl, c_string, length,
}
use daemon_file_hosting.Base.Int.{ℤ, pos, size_to_int, size_to_int-small, ltb_ℤ}
use daemon_file_hosting.External.{Platform}
use daemon_file_hosting.External.Laws.{IsGcm, IsFileStore}
use daemon_file_hosting.World.{World, malloc}
use daemon_file_hosting.Protocol.{RequestHeader}
use daemon_file_hosting.Path.{storage_path}
use daemon_file_hosting.Cipher.{enhanced_aes_gcm_decrypt}
use daemon_file_hosting.Cipher.Success.{Decrypts, enhanced_aes_gcm_decrypt-succeeds}
use daemon_file_hosting.Server.Upload.{metadata}
use daemon_file_hosting.Server.Download.{
  may_read, decrypt, send_text, open_with, open_text, read_file, serve_document,
}
use daemon_file_hosting.Server.Download.Access.{may_read-metadata}
use daemon_file_hosting.Server.Download.Held.{
  IsSealedAt, seal_of-metadata, read_file-open, serve_document-stat,
}

-- No call of a download fails before its reply.
pub record ReadsFiles (P : Platform) (G : IsGcm P.evp) (S : IsFileStore P.disk) : Type 0 where
  pub malloc_ok : (h : P.system.Heap) (n : ℕ) → (P.system.malloc h n).0 ≡ true
  pub opens :
      (f : P.disk.Files) (path text : Bytes)
      → S.contents f path ≡ some text
      → P.disk.fopen_read f path ≡ true
  pub decrypts : Decrypts P.evp G

module _ (P : Platform) (G : IsGcm P.evp) (S : IsFileStore P.disk) (R : ReadsFiles P G S) where
  -- The text is sent, from a state that differs in the heap and the engine alone.
  abbrev pub Sends : RequestHeader → Bytes → World P → Unit {0} × World P → Type 0
  Sends req text w r =
      (heap : P.system.Heap) × (engine : P.evp.Engine) × (r
        ≡ send_text P req text (record w { heap = heap; engine = engine }))

  decrypt-succeeds :
      (text iv tag : Bytes) (u : World P)
      → length text < 2 ^ 31
      → tag ≡ G.gcm_tag u.g_file_crypto.key iv text
      → let ct = G.gcm_ciphertext u.g_file_crypto.key iv text in
        (decrypt P ct (length ct) (iv, tag) u).0 ≡ some text
  unfolding decrypt
  decrypt-succeeds text iv tag u small mark =
      let key = u.g_file_crypto.key in
      let number : size_to_int (length (G.gcm_ciphertext key iv text)) ≡ pos (length text) =
        ap size_to_int (G.length-gcm_ciphertext key iv text)
        ∙ size_to_int-small (length text) small in
      (λ i.
        (enhanced_aes_gcm_decrypt P.evp (G.gcm_ciphertext key iv text) (number i) key iv (mark i)
          u.engine).0)
      ∙ enhanced_aes_gcm_decrypt-succeeds P.evp G R.decrypts text key iv u.engine

  open_with-Sends :
      (req : RequestHeader) (text iv tag : Bytes) (w : World P)
      → length text < 2 ^ 31
      → tag ≡ G.gcm_tag w.g_file_crypto.key iv text
      → let ct = G.gcm_ciphertext w.g_file_crypto.key iv text in
        Sends req text w (open_with P req (length ct) ct (some (iv, tag)) w)
  unfolding decrypt
  open_with-Sends req text iv tag w small mark =
      let ct = G.gcm_ciphertext w.g_file_crypto.key iv text in
      let v = (malloc P (length ct) w).1 in
      let r = decrypt P ct (length ct) (iv, tag) v in
      (
        r.1.heap,
        r.1.engine,
        rw (R.malloc_ok w.heap (length ct), decrypt-succeeds text iv tag v small mark) refl,
      )

  read_file-Sends :
      (req : RequestHeader) (name owner iv tag text : Bytes) (size : ℤ) (w : World P)
      → IsSealedAt P G S (storage_path (c_string req.filename)) iv tag text w
      → let ct = G.gcm_ciphertext w.g_file_crypto.key iv text in
        Sends req text w (read_file P req (metadata name size iv tag owner) (length ct) w)
  unfolding open_text
  read_file-Sends req name owner iv tag text size w h =
      let path = storage_path (c_string req.filename) in
      let ct = G.gcm_ciphertext w.g_file_crypto.key iv text in
      let v = (malloc P (length ct) w).1 in
      let long : length tag ≡ 16 = ap length h.mark ∙ G.length-gcm_tag _ iv text in
      let (heap, engine, sends) = open_with-Sends req text iv tag v h.small h.mark in
      (
        heap,
        engine,
        read_file-open P req (metadata name size iv tag owner) ct w (R.opens w.files path ct h.held)
              (R.malloc_ok w.heap (length ct)) (S.fread-contents w.files path ct h.held)
            ∙ ap (λ m. open_with P req (length ct) ct m v)
                (seal_of-metadata name size iv tag owner h.nonce long)
            ∙ sends,
      )

  -- Where no call fails, the owner's request for a text that is sealed under the name, with an
  -- offset within it, is served with the text.
  pub serve_document-Sends :
      (req : RequestHeader) (text iv tag owner : Bytes) (size : ℤ) (w : World P)
      → IsSealedAt P G S (storage_path (c_string req.filename)) iv tag text w
      → (ltb_ℤ req.offset (pos 0) || ltb_ℤ (pos (length text)) req.offset) ≡ false
      → Sends req text w
          (serve_document P req owner (metadata (c_string req.filename) size iv tag owner) w)
  serve_document-Sends req text iv tag owner size w h within =
      let name = c_string req.filename in
      let path = storage_path name in
      let ct = G.gcm_ciphertext w.g_file_crypto.key iv text in
      let mine : may_read (metadata name size iv tag owner) owner ≡ true =
        may_read-metadata name size iv tag owner owner ∙ bytes_eq_refl owner in
      let within_file : (ltb_ℤ req.offset (pos 0) || ltb_ℤ (pos (length ct)) req.offset) ≡ false =
        ap (λ (n : ℕ). ltb_ℤ req.offset (pos 0) || ltb_ℤ (pos n) req.offset)
          (G.length-gcm_ciphertext w.g_file_crypto.key iv text)
        ∙ within in
      rw
        (serve_document-stat P req owner (metadata name size iv tag owner) w mine
          (S.stat-contents w.files path ct h.held))
        (rw within_file (read_file-Sends req name owner iv tag text size w h))
