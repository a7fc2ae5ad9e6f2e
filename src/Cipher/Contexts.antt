-- ===== src/Cipher/Contexts.antt =====
-- Every path through the cipher functions frees the context that it has made, once.
use daemon_file_hosting.Base.{◌-◌, ◌≡◌, inl, inr, Bytes, arith, Option-cases}
use daemon_file_hosting.Base.Int.{ℤ}
use daemon_file_hosting.External.{Evp}
use daemon_file_hosting.External.Laws.{CountsContexts}
use daemon_file_hosting.Cipher.{
  encrypt_in, enhanced_aes_gcm_encrypt, decrypt_in, enhanced_aes_gcm_decrypt,
}

module _ (E : Evp) (S : CountsContexts E) where
  freed : (eng : E.Engine) (c : E.Ctx) → S.live (E.ctx_free eng c) ≡ S.live eng - 1
  freed = S.live-ctx_free

  live-encrypt_in :
      (c : E.Ctx) (pt : Bytes) (n : ℤ) (key iv : Bytes) (eng : E.Engine)
      → S.live (encrypt_in E c pt n key iv eng).1 ≡ S.live eng - 1
  unfolding encrypt_in
  live-encrypt_in c pt n key iv eng = elim (Option-cases (E.encrypt_init_cipher c)) [
    | inl e0 ↦ rw (e0, encrypt_in) (freed eng c)
    | inr (c1, e0) ↦ elim (Option-cases (E.encrypt_init_key c1 key iv)) [
      | inl e1 ↦ rw (e0, e1, encrypt_in) (freed eng c1)
      | inr (c2, e1) ↦ elim (Option-cases (E.encrypt_update c2 pt n)) [
        | inl e2 ↦ rw (e0, e1, e2, encrypt_in) (freed eng c2)
        | inr (u, e2) ↦ elim (Option-cases (E.encrypt_final u.1)) [
          | inl e3 ↦ rw (e0, e1, e2, e3, encrypt_in) (freed eng u.1)
          | inr (f, e3) ↦ elim (Option-cases (E.get_tag f.1 16)) [
            | inl e4 ↦ rw (e0, e1, e2, e3, e4, encrypt_in) (freed eng f.1)
            | inr (t, e4) ↦ rw (e0, e1, e2, e3, e4, encrypt_in) (freed eng f.1)
          ]
        ]
      ]
    ]
  ]

  live-decrypt_in :
      (c : E.Ctx) (ct : Bytes) (n : ℤ) (key iv tag : Bytes) (eng : E.Engine)
      → S.live (decrypt_in E c ct n key iv tag eng).1 ≡ S.live eng - 1
  unfolding decrypt_in
  live-decrypt_in c ct n key iv tag eng = elim (Option-cases (E.decrypt_init_cipher c)) [
    | inl e0 ↦ rw (e0, decrypt_in) (freed eng c)
    | inr (c1, e0) ↦ elim (Option-cases (E.decrypt_init_key c1 key iv)) [
      | inl e1 ↦ rw (e0, e1, decrypt_in) (freed eng c1)
      | inr (c2, e1) ↦ elim (Option-cases (E.decrypt_update c2 ct n)) [
        | inl e2 ↦ rw (e0, e1, e2, decrypt_in) (freed eng c2)
        | inr (u, e2) ↦ elim (Option-cases (E.set_tag u.1 16 tag)) [
          | inl e3 ↦ rw (e0, e1, e2, e3, decrypt_in) (freed eng u.1)
          | inr (c4, e3) ↦ elim (Option-cases (E.decrypt_final c4)) [
            | inl e4 ↦ rw (e0, e1, e2, e3, e4, decrypt_in) (freed eng c4)
            | inr (f, e4) ↦ rw (e0, e1, e2, e3, e4, decrypt_in) (freed eng f.1)
          ]
        ]
      ]
    ]
  ]

  live-encrypt :
      (pt : Bytes) (n : ℤ) (key iv : Bytes) (eng : E.Engine)
      → S.live (enhanced_aes_gcm_encrypt E pt n key iv eng).1 ≡ S.live eng
  unfolding enhanced_aes_gcm_encrypt
  live-encrypt pt n key iv eng = elim (Option-cases (E.ctx_new eng).0) [
    | inl e ↦ rw (e, enhanced_aes_gcm_encrypt) (S.live-ctx_new_failed eng e)
    | inr (c, e) ↦
        rw (e, enhanced_aes_gcm_encrypt)
          (omega (arith, live-encrypt_in c pt n key iv (E.ctx_new eng).1, S.live-ctx_new eng c e))
  ]

  live-decrypt :
      (ct : Bytes) (n : ℤ) (key iv tag : Bytes) (eng : E.Engine)
      → S.live (enhanced_aes_gcm_decrypt E ct n key iv tag eng).1 ≡ S.live eng
  unfolding enhanced_aes_gcm_decrypt
  live-decrypt ct n key iv tag eng = elim (Option-cases (E.ctx_new eng).0) [
    | inl e ↦ rw (e, enhanced_aes_gcm_decrypt) (S.live-ctx_new_failed eng e)
    | inr (c, e) ↦
        rw (e, enhanced_aes_gcm_decrypt)
          (omega
            (arith, live-decrypt_in c ct n key iv tag (E.ctx_new eng).1, S.live-ctx_new eng c e))
  ]

  -- Neither function leaves a cipher context behind: whatever call fails, and on success, there
  -- are as many contexts after it as before.
  pub cipher-live :
      (text : Bytes) (n : ℤ) (key iv tag : Bytes) (eng : E.Engine)
      → (S.live (enhanced_aes_gcm_encrypt E text n key iv eng).1 ≡ S.live eng)
        × (S.live (enhanced_aes_gcm_decrypt E text n key iv tag eng).1 ≡ S.live eng)
  cipher-live text n key iv tag eng =
      (live-encrypt text n key iv eng, live-decrypt text n key iv tag eng)
