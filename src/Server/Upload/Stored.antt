-- ===== src/Server/Upload/Stored.antt =====
-- What an upload has stored a download serves again: from the cipher and the file to the document.
use daemon_file_hosting.Base.{
  ℕ, ◌%◌, ◌^◌, ◌<◌, ◌≡◌, sym, ◌∙◌, ap, inl, inr, Bool, true, false, ◌||◌, some, Bytes, c_string,
  length, arith, ◌==◌, Bool-cases,
}
use daemon_file_hosting.Base.Int.{ℤ, pos, to_int, size_to_int, size_to_int-small, ltb_ℤ}
use daemon_file_hosting.External.{Platform}
use daemon_file_hosting.External.Laws.{IsGcm, IsFileStore}
use daemon_file_hosting.World.{World, FileCrypto}
use daemon_file_hosting.Protocol.{RequestHeader}
use daemon_file_hosting.Path.{storage_path}
use daemon_file_hosting.Cipher.{Sealed, enhanced_aes_gcm_encrypt}
use daemon_file_hosting.Cipher.RoundTrip.{IsSealed, encrypt-IsSealed}
use daemon_file_hosting.Server.Upload.{metadata, encrypt, write_file}
use daemon_file_hosting.Server.Download.{serve_document}
use daemon_file_hosting.Server.Download.Held.{Serves, held_is_served}

to_int-small : (n : ℕ) → n < 2 ^ 31 → to_int (pos n) ≡ pos n
unfolding to_int
to_int-small n h =
    let same : n % 2 ^ 64 ≡ n = omega arith in ap size_to_int same ∙ size_to_int-small n h

module _ (P : Platform) where
  -- Whether `fclose` succeeds after the write of a text.
  abbrev pub is_closed : Bytes → Bytes → World P → Bool
  is_closed path text w =
      (P.disk.fclose (P.disk.fwrite (P.disk.fopen_write w.files path).1 path text).1 path).0

  pub write_file-contents :
      (S : IsFileStore P.disk) (path text : Bytes) (w : World P)
      → is_closed path text w ≡ true
      → (write_file P path text w).0 ≡ true
      → S.contents (write_file P path text w).1.files path ≡ some text
  unfolding write_file
  write_file-contents S path text w shut h = elim (Bool-cases (P.disk.fopen_write w.files path).0) [
    | inr closed ↦ cc (rw (closed, write_file) at h)
    | inl is_open ↦
        let all : ((P.disk.fwrite (P.disk.fopen_write w.files path).1 path text).0 == length text)
            ≡ true =
          rw (is_open, write_file) at h in
        rw (is_open, write_file) (S.write_whole w.files path text is_open (ground arith) shut)
  ]

  -- What `encrypt` has sealed, for a text of the length that it is given.
  pub encrypt-sealed :
      (G : IsGcm P.evp) (text iv : Bytes) (sealed : Sealed) (w : World P)
      → length text < 2 ^ 31
      → (encrypt P text (pos (length text)) iv w).0 ≡ some sealed
      → IsSealed P.evp G w.g_file_crypto.key iv text sealed
  unfolding encrypt
  encrypt-sealed G text iv sealed w small e =
      encrypt-IsSealed P.evp G text w.g_file_crypto.key iv w.engine sealed (
        ap (λ n. (enhanced_aes_gcm_encrypt P.evp text n w.g_file_crypto.key iv w.engine).0)
          (sym (to_int-small (length text) small))
        ∙ e)

  -- A text below 2 ^ 31 bytes was encrypted under the server's key and the whole ciphertext was
  -- written to the file of a name, which was closed without a failure. Later the file is as it was written, the key is the same, and
  -- the document holds the nonce, the tag and the owner. Then a request of the owner's for the name,
  -- with an offset within the text, is served with that text from the offset on, or it gets an
  -- error; nothing else can be sent.
  pub stored_text_is_served :
      (G : IsGcm P.evp) (S : IsFileStore P.disk) (req : RequestHeader) (text iv owner : Bytes)
      (size : ℤ) (sealed : Sealed) (w v later : World P)
      → length text < 2 ^ 31
      → length iv ≡ 12
      → (encrypt P text (pos (length text)) iv w).0 ≡ some sealed
      → (write_file P (storage_path (c_string req.filename)) sealed.ciphertext v).0 ≡ true
      → is_closed (storage_path (c_string req.filename)) sealed.ciphertext v ≡ true
      → later.files
        ≡ (write_file P (storage_path (c_string req.filename)) sealed.ciphertext v).1.files
      → later.g_file_crypto ≡ w.g_file_crypto
      → (ltb_ℤ req.offset (pos 0) || ltb_ℤ (pos (length text)) req.offset) ≡ false
      → Serves P req text later (
          serve_document P req owner
            (metadata (c_string req.filename) size iv sealed.tag owner)
            later)
  stored_text_is_served G S req text iv owner size sealed w v later small n12 enc wrote shut kept
        key_kept within =
      held_is_served P G S req text iv sealed.tag owner size later
        (record {
          small = small;
          nonce = n12;
          held =
              ap (λ f. S.contents f path) kept
              ∙ write_file-contents S path sealed.ciphertext v shut wrote
              ∙ ap (λ b. some b) (is_sealed.text ∙ ap (λ k. G.gcm_ciphertext k iv text) (sym keys));
          mark = is_sealed.mark ∙ ap (λ k. G.gcm_tag k iv text) (sym keys);
        })
        within
    where
      path : Bytes
      path = storage_path (c_string req.filename)

      is_sealed : IsSealed P.evp G w.g_file_crypto.key iv text sealed
      is_sealed = encrypt-sealed G text iv sealed w small enc

      keys : later.g_file_crypto.key ≡ w.g_file_crypto.key
      keys = ap (λ (c : FileCrypto). c.key) key_kept
