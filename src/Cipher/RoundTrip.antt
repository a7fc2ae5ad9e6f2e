-- ===== src/Cipher/RoundTrip.antt =====
-- What `enhanced_aes_gcm_encrypt` has sealed `enhanced_aes_gcm_decrypt` opens.
use daemon_file_hosting.Base.{◌≡◌, inl, inr, ◌∙◌, ap, some, Bytes, length, arith, Option-cases}
use daemon_file_hosting.Base.Int.{pos}
use daemon_file_hosting.External.{Evp}
use daemon_file_hosting.External.Laws.{IsGcm}
use daemon_file_hosting.Cipher.{
  Sealed, encrypt_in, enhanced_aes_gcm_encrypt, decrypt_in, enhanced_aes_gcm_decrypt,
}

module _ (E : Evp) (G : IsGcm E) where
  -- What a successful encryption returns.
  pub record IsSealed (key iv pt : Bytes) (s : Sealed) : Type 0 where
    pub text : s.ciphertext ≡ G.gcm_ciphertext key iv pt
    pub mark : s.tag ≡ G.gcm_tag key iv pt

  encrypt_in-IsSealed :
      (c : E.Ctx) (pt key iv : Bytes) (eng : E.Engine) (s : Sealed)
      → (encrypt_in E c pt (pos (length pt)) key iv eng).0 ≡ some s
      → IsSealed key iv pt s
  unfolding encrypt_in
  encrypt_in-IsSealed c pt key iv eng s h = elim (Option-cases (E.encrypt_init_cipher c)) [
    | inl e0 ↦ cc (rw (e0, encrypt_in) at h)
    | inr (c1, e0) ↦ elim (Option-cases (E.encrypt_init_key c1 key iv)) [
      | inl e1 ↦ cc (rw (e0, e1, encrypt_in) at h)
      | inr (c2, e1) ↦ elim (Option-cases (E.encrypt_update c2 pt (pos (length pt)))) [
        | inl e2 ↦ cc (rw (e0, e1, e2, encrypt_in) at h)
        | inr ((out, c3), e2) ↦ elim (Option-cases (E.encrypt_final c3)) [
          | inl e3 ↦ cc (rw (e0, e1, e2, e3, encrypt_in) at h)
          | inr ((rest, c4), e3) ↦ elim (Option-cases (E.get_tag c4 16)) [
            | inl e4 ↦ cc (rw (e0, e1, e2, e3, e4, encrypt_in) at h)
            | inr (t, e4) ↦
                let (x, y) = G.seals c c1 c2 c3 c4 key iv pt out rest t e0 e1 e2 e3 e4 in
                let r = (rw (e0, e1, e2, e3, e4, encrypt_in) at h) in ground arith
          ]
        ]
      ]
    ]
  ]

  decrypt_in-opens :
      (c : E.Ctx) (pt key iv : Bytes) (eng : E.Engine) (out : Bytes)
      → (decrypt_in E c
          (G.gcm_ciphertext key iv pt)
          (pos (length pt))
          key
          iv
          (G.gcm_tag key iv pt)
          eng).0
        ≡ some out
      → out ≡ pt
  unfolding decrypt_in
  decrypt_in-opens c pt key iv eng out h = elim (Option-cases (E.decrypt_init_cipher c)) [
    | inl e0 ↦ cc (rw (e0, decrypt_in) at h)
    | inr (c1, e0) ↦ elim (Option-cases (E.decrypt_init_key c1 key iv)) [
      | inl e1 ↦ cc (rw (e0, e1, decrypt_in) at h)
      | inr (c2, e1) ↦
          elim (Option-cases (E.decrypt_update c2 (G.gcm_ciphertext key iv pt) (pos (length pt)))) [
            | inl e2 ↦ cc (rw (e0, e1, e2, decrypt_in) at h)
            | inr ((o, c3), e2) ↦ elim (Option-cases (E.set_tag c3 16 (G.gcm_tag key iv pt))) [
              | inl e3 ↦ cc (rw (e0, e1, e2, e3, decrypt_in) at h)
              | inr (c4, e3) ↦ elim (Option-cases (E.decrypt_final c4)) [
                | inl e4 ↦ cc (rw (e0, e1, e2, e3, e4, decrypt_in) at h)
                | inr ((rest, c5), e4) ↦
                    let x = G.unseals c c1 c2 c3 c4 c5 key iv pt o rest e0 e1 e2 e3 e4 in
                    let r = (rw (e0, e1, e2, e3, e4, decrypt_in) at h) in ground arith
              ]
            ]
          ]
    ]
  ]

  pub encrypt-IsSealed :
      (pt key iv : Bytes) (eng : E.Engine) (s : Sealed)
      → (enhanced_aes_gcm_encrypt E pt (pos (length pt)) key iv eng).0 ≡ some s
      → IsSealed key iv pt s
  unfolding enhanced_aes_gcm_encrypt
  encrypt-IsSealed pt key iv eng s h = elim (Option-cases (E.ctx_new eng).0) [
    | inl e ↦ cc (rw (e, enhanced_aes_gcm_encrypt) at h)
    | inr (c, e) ↦
        encrypt_in-IsSealed c pt key iv (E.ctx_new eng).1 s (rw (e, enhanced_aes_gcm_encrypt) at h)
  ]

  pub decrypt-opens :
      (pt key iv : Bytes) (eng : E.Engine) (out : Bytes)
      → (enhanced_aes_gcm_decrypt E
          (G.gcm_ciphertext key iv pt)
          (pos (length pt))
          key
          iv
          (G.gcm_tag key iv pt)
          eng).0
        ≡ some out
      → out ≡ pt
  unfolding enhanced_aes_gcm_decrypt
  decrypt-opens pt key iv eng out h = elim (Option-cases (E.ctx_new eng).0) [
    | inl e ↦ cc (rw (e, enhanced_aes_gcm_decrypt) at h)
    | inr (c, e) ↦
        decrypt_in-opens c pt key iv (E.ctx_new eng).1 out (rw (e, enhanced_aes_gcm_decrypt) at h)
  ]

  -- When a text is encrypted, and the ciphertext and tag that come out are decrypted under the
  -- same key and nonce, both without a failure, the result is the text. The ciphertext is as long
  -- as the text.
  pub decrypt-encrypt :
      (pt key iv : Bytes) (eng eng' : E.Engine) (s : Sealed) (out : Bytes)
      → (enhanced_aes_gcm_encrypt E pt (pos (length pt)) key iv eng).0 ≡ some s
      → (enhanced_aes_gcm_decrypt E s.ciphertext (pos (length s.ciphertext)) key iv s.tag eng').0
        ≡ some out
      → (length s.ciphertext ≡ length pt) × (out ≡ pt)
  decrypt-encrypt pt key iv eng eng' s out h k =
      let i = encrypt-IsSealed pt key iv eng s h in
      let n : length s.ciphertext ≡ length pt =
        ap length i.text ∙ G.length-gcm_ciphertext key iv pt in
      (n, decrypt-opens pt key iv eng' out (rw (n, i.text, i.mark) at k))
