-- ===== src/Cipher.antt =====
-- `enhanced_aes_gcm_encrypt` and `enhanced_aes_gcm_decrypt` of src/server/server.c over OpenSSL's
-- envelope interface: each call that fails frees the context and gives -1, here `none`.
pub mod Contexts
pub mod Success
pub mod AesGcm
pub mod RoundTrip
use daemon_file_hosting.Base.{◌++◌, Option, none, some, Bytes}
use daemon_file_hosting.Base.Int.{ℤ}
use daemon_file_hosting.External.{Evp}

-- The ciphertext, whose length is the `int` that the function returns, and the tag.
pub record Sealed : Type 0 where
  pub ciphertext : Bytes
  pub tag : Bytes

module _ (E : Evp) where
  -- The calls after `EVP_CIPHER_CTX_new`.
  encrypt_in : E.Ctx → Bytes → ℤ → Bytes → Bytes → E.Engine → Option Sealed × E.Engine
  encrypt_in c plaintext plaintext_len key iv eng = elim (E.encrypt_init_cipher c) [
    | none ↦ (none, E.ctx_free eng c)
    | some c1 ↦ elim (E.encrypt_init_key c1 key iv) [
      | none ↦ (none, E.ctx_free eng c1)
      | some c2 ↦ elim (E.encrypt_update c2 plaintext plaintext_len) [
        | none ↦ (none, E.ctx_free eng c2)
        | some (out, c3) ↦ elim (E.encrypt_final c3) [
          | none ↦ (none, E.ctx_free eng c3)
          | some (rest, c4) ↦ elim (E.get_tag c4 16) [
            | none ↦ (none, E.ctx_free eng c4)
            | some tag ↦ (some (record { ciphertext = out ++ rest; tag = tag }), E.ctx_free eng c4)
          ]
        ]
      ]
    ]
  ]

  unfoldable pub enhanced_aes_gcm_encrypt :
      Bytes → ℤ → Bytes → Bytes → E.Engine → Option Sealed × E.Engine
  unfolding encrypt_in
  enhanced_aes_gcm_encrypt plaintext plaintext_len key iv eng =
      let new = E.ctx_new eng in
      elim new.0 [
        | none ↦ (none, new.1)
        | some c ↦ encrypt_in c plaintext plaintext_len key iv new.1
      ]

  decrypt_in : E.Ctx → Bytes → ℤ → Bytes → Bytes → Bytes → E.Engine → Option Bytes × E.Engine
  decrypt_in c ciphertext ciphertext_len key iv tag eng = elim (E.decrypt_init_cipher c) [
    | none ↦ (none, E.ctx_free eng c)
    | some c1 ↦ elim (E.decrypt_init_key c1 key iv) [
      | none ↦ (none, E.ctx_free eng c1)
      | some c2 ↦ elim (E.decrypt_update c2 ciphertext ciphertext_len) [
        | none ↦ (none, E.ctx_free eng c2)
        | some (out, c3) ↦ elim (E.set_tag c3 16 tag) [
          | none ↦ (none, E.ctx_free eng c3)
          | some c4 ↦ elim (E.decrypt_final c4) [
            | none ↦ (none, E.ctx_free eng c4)
            | some (rest, c5) ↦ (some (out ++ rest), E.ctx_free eng c5)
          ]
        ]
      ]
    ]
  ]

  unfoldable pub enhanced_aes_gcm_decrypt :
      Bytes → ℤ → Bytes → Bytes → Bytes → E.Engine → Option Bytes × E.Engine
  unfolding decrypt_in
  enhanced_aes_gcm_decrypt ciphertext ciphertext_len key iv tag eng =
      let new = E.ctx_new eng in
      elim new.0 [
        | none ↦ (none, new.1)
        | some c ↦ decrypt_in c ciphertext ciphertext_len key iv tag new.1
      ]
