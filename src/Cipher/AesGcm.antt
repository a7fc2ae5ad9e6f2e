-- ===== src/Cipher/AesGcm.antt =====
-- `crypto_encrypt_aes_gcm` of src/crypto/aes_gcm.c, which draws its nonce itself.
use daemon_file_hosting.Base.{
  ℕ, ◌≡◌, refl, inl, inr, ◌++◌, Option, none, some, Bytes, length, Option-cases,
}
use daemon_file_hosting.Base.Int.{size_to_int}
use daemon_file_hosting.External.{Evp, System}
use daemon_file_hosting.Cipher.{Sealed, encrypt_in, enhanced_aes_gcm_encrypt}

-- The contents of a buffer after `RAND_bytes`, whose result is not tested.
abbrev pub filled : Option Bytes → Bytes → Bytes
filled none old = old
filled (some drawn) old = drawn

-- `EVP_CTRL_GCM_SET_IVLEN` is a call of OpenSSL's that only this function makes.
module _ (E : Evp) (set_ivlen : E.Ctx → ℕ → Option E.Ctx) (S : System) where
  -- What is returned and written, the nonce's buffer, and the states of the external code.
  pub record Encryption : Type 0 where
    pub sealed : Option Sealed
    pub iv : Bytes
    pub engine : E.Engine
    pub entropy : S.Entropy

  -- `err:` the context is released.
  abbrev failed : E.Ctx → Bytes → E.Engine → S.Entropy → Encryption
  failed c iv eng ent = record { sealed = none; iv = iv; engine = E.ctx_free eng c; entropy = ent }

  -- From the initialisation with key and nonce on.
  unfoldable pub encrypt_with : E.Ctx → Bytes → Bytes → Bytes → E.Engine → S.Entropy → Encryption
  encrypt_with c pt key iv eng ent = elim (E.encrypt_init_key c key iv) [
    | none ↦ failed c iv eng ent
    | some c1 ↦ elim (E.encrypt_update c1 pt (size_to_int (length pt))) [
      | none ↦ failed c1 iv eng ent
      | some (out, c2) ↦ elim (E.encrypt_final c2) [
        | none ↦ failed c2 iv eng ent
        | some (rest, c3) ↦ elim (E.get_tag c3 16) [
          | none ↦ failed c3 iv eng ent
          | some tag ↦ record {
            sealed = some (record { ciphertext = out ++ rest; tag = tag });
            iv = iv;
            engine = E.ctx_free eng c3;
            entropy = ent;
          }
        ]
      ]
    ]
  ]

  -- From the choice of the cipher on, with `old` in the nonce's buffer.
  unfoldable pub encrypt_drawn : E.Ctx → Bytes → Bytes → Bytes → E.Engine → S.Entropy → Encryption
  unfolding encrypt_with
  encrypt_drawn c pt key old eng ent = elim (E.encrypt_init_cipher c) [
    | none ↦ failed c old eng ent
    | some c1 ↦ elim (set_ivlen c1 12) [
      | none ↦ failed c1 old eng ent
      | some c2 ↦ let r = S.rand_bytes ent 12 in encrypt_with c2 pt key (filled r.0 old) eng r.1
    ]
  ]

  unfoldable pub crypto_encrypt_aes_gcm : Bytes → Bytes → Bytes → E.Engine → S.Entropy → Encryption
  unfolding encrypt_drawn
  crypto_encrypt_aes_gcm pt key old eng ent =
      let new = E.ctx_new eng in
      elim new.0 [
        | none ↦ record { sealed = none; iv = old; engine = new.1; entropy = ent }
        | some c ↦ encrypt_drawn c pt key old new.1 ent
      ]

  -- The parts that the caller of `enhanced_aes_gcm_encrypt` gets.
  abbrev pub outcome : Encryption → Option Sealed × E.Engine
  outcome e = (e.sealed, e.engine)

  -- 12 bytes are the length that a nonce of GCM has by default: setting it changes nothing.
  abbrev pub IsDefaultLength : Type 0
  IsDefaultLength = (c : E.Ctx) → set_ivlen c 12 ≡ some c

  encrypt_drawn-eq-encrypt_in :
      (d : IsDefaultLength) (c : E.Ctx) (pt key old : Bytes) (eng : E.Engine) (ent : S.Entropy)
      → outcome (encrypt_drawn c pt key old eng ent)
        ≡ encrypt_in E c pt (size_to_int (length pt)) key (filled (S.rand_bytes ent 12).0 old) eng
  unfolding encrypt_drawn encrypt_with encrypt_in
  encrypt_drawn-eq-encrypt_in d c pt key old eng ent =
      let iv = filled (S.rand_bytes ent 12).0 old in
      elim (Option-cases (E.encrypt_init_cipher c)) [
        | inl e1 ↦ rw (e1, encrypt_drawn, encrypt_in) refl
        | inr (c1, e1) ↦ elim (Option-cases (E.encrypt_init_key c1 key iv)) [
          | inl e2 ↦ rw (e1, d c1, e2, encrypt_drawn, encrypt_with, encrypt_in) refl
          | inr (c2, e2) ↦ elim (Option-cases (E.encrypt_update c2 pt (size_to_int (length pt)))) [
            | inl e3 ↦ rw (e1, d c1, e2, e3, encrypt_drawn, encrypt_with, encrypt_in) refl
            | inr ((out, c3), e3) ↦ elim (Option-cases (E.encrypt_final c3)) [
              | inl e4 ↦ rw (e1, d c1, e2, e3, e4, encrypt_drawn, encrypt_with, encrypt_in) refl
              | inr ((rest, c4), e4) ↦ elim (Option-cases (E.get_tag c4 16)) [
                | inl e5 ↦
                    rw (e1, d c1, e2, e3, e4, e5, encrypt_drawn, encrypt_with, encrypt_in) refl
                | inr (tag, e5) ↦
                    rw (e1, d c1, e2, e3, e4, e5, encrypt_drawn, encrypt_with, encrypt_in) refl
              ]
            ]
          ]
        ]
      ]

  -- Where the default length of a nonce is 12, the function seals as the server's does under the
  -- nonce that is in the buffer after RAND_bytes, and leaves the same contexts: that is the nonce
  -- that was drawn, or, where none was drawn, what the caller's buffer held.
  pub crypto_encrypt_aes_gcm-eq-enhanced_aes_gcm_encrypt :
      (d : IsDefaultLength) (pt key old : Bytes) (eng : E.Engine) (ent : S.Entropy)
      → outcome (crypto_encrypt_aes_gcm pt key old eng ent)
        ≡ enhanced_aes_gcm_encrypt E pt
            (size_to_int (length pt))
            key
            (filled (S.rand_bytes ent 12).0 old)
            eng
  unfolding crypto_encrypt_aes_gcm enhanced_aes_gcm_encrypt
  crypto_encrypt_aes_gcm-eq-enhanced_aes_gcm_encrypt d pt key old eng ent =
      elim (Option-cases (E.ctx_new eng).0) [
        | inl none_made ↦ rw (none_made, crypto_encrypt_aes_gcm, enhanced_aes_gcm_encrypt) refl
        | inr (c, made) ↦
            rw (made, crypto_encrypt_aes_gcm, enhanced_aes_gcm_encrypt)
              (encrypt_drawn-eq-encrypt_in d c pt key old (E.ctx_new eng).1 ent)
      ]
