-- ===== src/Cipher/Success.antt =====
-- An encryption or a decryption for which no call of the cipher's fails.
use daemon_file_hosting.Base.{◌≡◌, ◌≢◌, refl, ◌∙◌, ap, ◌++◌, ℕ, none, some, Bytes, length, not_none}
use daemon_file_hosting.Base.Int.{ℤ, pos}
use daemon_file_hosting.External.{Evp}
use daemon_file_hosting.Cipher.{
  Sealed, encrypt_in, enhanced_aes_gcm_encrypt, decrypt_in, enhanced_aes_gcm_decrypt,
}
use daemon_file_hosting.External.Laws.{IsGcm}
use daemon_file_hosting.Cipher.RoundTrip.{decrypt-opens}

-- No call of the cipher's fails.
pub record Encrypts (E : Evp) : Type 0 where
  pub ctx_new_ok : (e : E.Engine) → (E.ctx_new e).0 ≢ none
  pub init_cipher_ok : (c : E.Ctx) → E.encrypt_init_cipher c ≢ none
  pub init_key_ok : (c : E.Ctx) (key iv : Bytes) → E.encrypt_init_key c key iv ≢ none
  pub update_ok : (c : E.Ctx) (s : Bytes) (n : ℤ) → E.encrypt_update c s n ≢ none
  pub final_ok : (c : E.Ctx) → E.encrypt_final c ≢ none
  pub get_tag_ok : (c : E.Ctx) (n : ℕ) → E.get_tag c n ≢ none

module _ (E : Evp) (K : Encrypts E) where
  encrypt_in-all :
      (c c1 c2 c3 c4 : E.Ctx) (text key iv out rest tag : Bytes) (n : ℤ) (e : E.Engine)
      → E.encrypt_init_cipher c ≡ some c1
      → E.encrypt_init_key c1 key iv ≡ some c2
      → E.encrypt_update c2 text n ≡ some (out, c3)
      → E.encrypt_final c3 ≡ some (rest, c4)
      → E.get_tag c4 16 ≡ some tag
      → (encrypt_in E c text n key iv e).0 ≡ some (record { ciphertext = out ++ rest; tag = tag })
  unfolding encrypt_in
  encrypt_in-all c c1 c2 c3 c4 text key iv out rest tag n e e1 e2 e3 e4 e5 =
      rw (e1, e2, e3, e4, e5, encrypt_in) refl

  encrypt_in-succeeds :
      (c : E.Ctx) (text key iv : Bytes) (size : ℤ) (e : E.Engine)
      → (sealed : Sealed) × ((encrypt_in E c text size key iv e).0 ≡ some sealed)
  encrypt_in-succeeds c text key iv size e =
      let (c1, e1) = not_none (E.encrypt_init_cipher c) (K.init_cipher_ok c) in
      let (c2, e2) = not_none (E.encrypt_init_key c1 key iv) (K.init_key_ok c1 key iv) in
      let ((out, c3), e3) = not_none (E.encrypt_update c2 text size) (K.update_ok c2 text size) in
      let ((rest, c4), e4) = not_none (E.encrypt_final c3) (K.final_ok c3) in
      let (tag, e5) = not_none (E.get_tag c4 16) (K.get_tag_ok c4 16) in
      (
        record { ciphertext = out ++ rest; tag = tag },
        encrypt_in-all c c1 c2 c3 c4 text key iv out rest tag size e e1 e2 e3 e4 e5,
      )

  pub enhanced_aes_gcm_encrypt-succeeds :
      (text : Bytes) (size : ℤ) (key iv : Bytes) (e : E.Engine)
      → (sealed : Sealed) × ((enhanced_aes_gcm_encrypt E text size key iv e).0 ≡ some sealed)
  unfolding enhanced_aes_gcm_encrypt
  enhanced_aes_gcm_encrypt-succeeds text size key iv e =
      let (c, made) = not_none (E.ctx_new e).0 (K.ctx_new_ok e) in
      let (sealed, done) = encrypt_in-succeeds c text key iv size (E.ctx_new e).1 in
      (sealed, rw (made, enhanced_aes_gcm_encrypt) done)

-- No call of a decryption fails: a context that was given the ciphertext of a text under its key and
-- nonce takes the text's tag, and then confirms it.
pub record Decrypts (E : Evp) (G : IsGcm E) : Type 0 where
  pub opens_ctx : (e : E.Engine) → (E.ctx_new e).0 ≢ none
  pub opens_cipher : (c : E.Ctx) → E.decrypt_init_cipher c ≢ none
  pub opens_key : (c : E.Ctx) (key iv : Bytes) → E.decrypt_init_key c key iv ≢ none
  pub opens_update : (c : E.Ctx) (s : Bytes) (n : ℤ) → E.decrypt_update c s n ≢ none
  pub takes_tag :
      (c c1 c2 c3 : E.Ctx) (key iv pt out : Bytes)
      → E.decrypt_init_cipher c ≡ some c1
      → E.decrypt_init_key c1 key iv ≡ some c2
      → E.decrypt_update c2 (G.gcm_ciphertext key iv pt) (pos (length pt)) ≡ some (out, c3)
      → E.set_tag c3 16 (G.gcm_tag key iv pt) ≢ none
  pub confirms :
      (c c1 c2 c3 c4 : E.Ctx) (key iv pt out : Bytes)
      → E.decrypt_init_cipher c ≡ some c1
      → E.decrypt_init_key c1 key iv ≡ some c2
      → E.decrypt_update c2 (G.gcm_ciphertext key iv pt) (pos (length pt)) ≡ some (out, c3)
      → E.set_tag c3 16 (G.gcm_tag key iv pt) ≡ some c4
      → E.decrypt_final c4 ≢ none

module _ (E : Evp) (G : IsGcm E) (K : Decrypts E G) where
  decrypt_in-all :
      (c c1 c2 c3 c4 c5 : E.Ctx) (text key iv tag out rest : Bytes) (n : ℤ) (e : E.Engine)
      → E.decrypt_init_cipher c ≡ some c1
      → E.decrypt_init_key c1 key iv ≡ some c2
      → E.decrypt_update c2 text n ≡ some (out, c3)
      → E.set_tag c3 16 tag ≡ some c4
      → E.decrypt_final c4 ≡ some (rest, c5)
      → (decrypt_in E c text n key iv tag e).0 ≡ some (out ++ rest)
  unfolding decrypt_in
  decrypt_in-all c c1 c2 c3 c4 c5 text key iv tag out rest n e e1 e2 e3 e4 e5 =
      rw (e1, e2, e3, e4, e5, decrypt_in) refl

  decrypt_in-succeeds :
      (c : E.Ctx) (pt key iv : Bytes) (e : E.Engine)
      → (out : Bytes) × ((decrypt_in E c
            (G.gcm_ciphertext key iv pt)
            (pos (length pt))
            key
            iv
            (G.gcm_tag key iv pt)
            e).0
          ≡ some out)
  decrypt_in-succeeds c pt key iv e =
      let text = G.gcm_ciphertext key iv pt in
      let tag = G.gcm_tag key iv pt in
      let (c1, e1) = not_none (E.decrypt_init_cipher c) (K.opens_cipher c) in
      let (c2, e2) = not_none (E.decrypt_init_key c1 key iv) (K.opens_key c1 key iv) in
      let ((out, c3), e3) =
        not_none (E.decrypt_update c2 text (pos (length pt))) (K.opens_update c2 text _) in
      let (c4, e4) =
        not_none (E.set_tag c3 16 tag) (K.takes_tag c c1 c2 c3 key iv pt out e1 e2 e3) in
      let ((rest, c5), e5) =
        not_none (E.decrypt_final c4) (K.confirms c c1 c2 c3 c4 key iv pt out e1 e2 e3 e4) in
      (
        out ++ rest,
        decrypt_in-all c c1 c2 c3 c4 c5 text key iv tag out rest (pos (length pt)) e e1 e2 e3 e4 e5,
      )

  -- The text of a ciphertext and its tag is decrypted.
  pub enhanced_aes_gcm_decrypt-succeeds :
      (pt key iv : Bytes) (e : E.Engine)
      → (enhanced_aes_gcm_decrypt E
          (G.gcm_ciphertext key iv pt)
          (pos (length pt))
          key
          iv
          (G.gcm_tag key iv pt)
          e).0
        ≡ some pt
  unfolding enhanced_aes_gcm_decrypt
  enhanced_aes_gcm_decrypt-succeeds pt key iv e =
      let (c, made) = not_none (E.ctx_new e).0 (K.opens_ctx e) in
      let (out, done) = decrypt_in-succeeds c pt key iv (E.ctx_new e).1 in
      let all : (enhanced_aes_gcm_decrypt E (G.gcm_ciphertext key iv pt) (pos (length pt)) key iv
            (G.gcm_tag key iv pt) e).0
          ≡ some out =
        rw (made, enhanced_aes_gcm_decrypt) done in
      all ∙ ap (λ t. some t) (decrypt-opens E G pt key iv e out all)
