-- ===== src/External/Laws.antt =====
-- What the theorems assume of the external code: documented behaviour, one record for each part.
use daemon_file_hosting.Base.{
  ℕ, ◌+◌, ◌-◌, ◌≤◌, ◌≡◌, ◌≢◌, true, Option, none, some, Bytes, [], ◌++◌, length, take,
}
use daemon_file_hosting.Base.Int.{ℤ, pos}
use daemon_file_hosting.Transfer.{progress, arrived}
use daemon_file_hosting.External.{Blake3, Tls, Evp, Disk, Mongo}

-- Hashing a text in pieces is hashing the text, and an empty piece changes nothing.
pub record IsStreaming (B : Blake3) : Type 0 where
  pub update-nil : (h : B.Hasher) → B.hasher_update h [] ≡ h
  pub update-append :
      (h : B.Hasher) (a b : Bytes)
      → B.hasher_update (B.hasher_update h a) b ≡ B.hasher_update h (a ++ b)

-- A connection as the text that it has carried out and the text that is still to come in. A write
-- with a positive result has carried that many bytes of its buffer, at most as many as it was
-- given; one without has carried none. A read takes the next bytes of the text to come.
pub record IsStream (T : Tls) : Type 0 where
  pub sent : T.Conn → Bytes
  pub incoming : T.Conn → Bytes
  pub write_some :
      (c : T.Conn) (buf : Bytes) (n k : ℕ) (num : ℤ)
      → num ≡ pos n
      → n ≤ length buf
      → progress (T.ssl_write c buf num).0 ≡ some k
      → (k ≤ n) × (sent (T.ssl_write c buf num).1 ≡ sent c ++ take k buf)
  pub write_none :
      (c : T.Conn) (buf : Bytes) (num : ℤ)
      → progress (T.ssl_write c buf num).0 ≡ none
      → sent (T.ssl_write c buf num).1 ≡ sent c
  pub read_some :
      (c : T.Conn) (n : ℕ) (s : Bytes) (num : ℤ)
      → num ≡ pos n
      → arrived (T.ssl_read c num).0 ≡ some s
      → (length s ≤ n) × (incoming c ≡ s ++ incoming (T.ssl_read c num).1)
  pub write-incoming :
      (c : T.Conn) (buf : Bytes) (num : ℤ) → incoming (T.ssl_write c buf num).1 ≡ incoming c
  pub read-sent : (c : T.Conn) (num : ℤ) → sent (T.ssl_read c num).1 ≡ sent c

-- No call sets `errno` to 0.
pub record LeavesErrors (D : Mongo) : Type 0 where
  pub never_zero : (db : D.Db) (e : ℕ) → e ≢ 0 → D.errno_left db e ≢ 0

-- The number of cipher contexts in being.
pub record CountsContexts (E : Evp) : Type 0 where
  pub live : E.Engine → ℕ
  pub live-ctx_new :
      (e : E.Engine) (c : E.Ctx) → (E.ctx_new e).0 ≡ some c → live (E.ctx_new e).1 ≡ live e + 1
  pub live-ctx_new_failed : (e : E.Engine) → (E.ctx_new e).0 ≡ none → live (E.ctx_new e).1 ≡ live e
  pub live-ctx_free : (e : E.Engine) (c : E.Ctx) → live (E.ctx_free e c) ≡ live e - 1

-- AES-256-GCM as a function of key, nonce and text. A context that has been given a key and a
-- nonce, then a text, puts out the text's ciphertext, and holds its tag; given the ciphertext and
-- the tag that belong to a text, it puts out the text.
pub record IsGcm (E : Evp) : Type 0 where
  pub gcm_ciphertext : Bytes → Bytes → Bytes → Bytes
  pub gcm_tag : Bytes → Bytes → Bytes → Bytes
  pub seals :
      (c c1 c2 c3 c4 : E.Ctx) (key iv pt out rest tag : Bytes)
      → E.encrypt_init_cipher c ≡ some c1
      → E.encrypt_init_key c1 key iv ≡ some c2
      → E.encrypt_update c2 pt (pos (length pt)) ≡ some (out, c3)
      → E.encrypt_final c3 ≡ some (rest, c4)
      → E.get_tag c4 16 ≡ some tag
      → (out ++ rest ≡ gcm_ciphertext key iv pt) × (tag ≡ gcm_tag key iv pt)
  pub length-gcm_tag : (key iv pt : Bytes) → length (gcm_tag key iv pt) ≡ 16
  pub length-gcm_ciphertext : (key iv pt : Bytes) → length (gcm_ciphertext key iv pt) ≡ length pt
  pub unseals :
      (c c1 c2 c3 c4 c5 : E.Ctx) (key iv pt out rest : Bytes)
      → E.decrypt_init_cipher c ≡ some c1
      → E.decrypt_init_key c1 key iv ≡ some c2
      → E.decrypt_update c2 (gcm_ciphertext key iv pt) (pos (length pt)) ≡ some (out, c3)
      → E.set_tag c3 16 (gcm_tag key iv pt) ≡ some c4
      → E.decrypt_final c4 ≡ some (rest, c5)
      → out ++ rest ≡ pt

-- Files as their contents by path: a file that was opened for writing and closed, without a failure,
-- after one write of a whole text holds that text, and then has its length and is read back as it.
pub record IsFileStore (D : Disk) : Type 0 where
  pub contents : D.Files → Bytes → Option Bytes
  pub write_whole :
      (f : D.Files) (path text : Bytes)
      → (D.fopen_write f path).0 ≡ true
      → (D.fwrite (D.fopen_write f path).1 path text).0 ≡ length text
      → (D.fclose (D.fwrite (D.fopen_write f path).1 path text).1 path).0 ≡ true
      → contents (D.fclose (D.fwrite (D.fopen_write f path).1 path text).1 path).1 path ≡ some text
  pub stat-contents :
      (f : D.Files) (path text : Bytes)
      → contents f path ≡ some text
      → D.stat f path ≡ some (length text)
  pub fread-contents :
      (f : D.Files) (path text : Bytes)
      → contents f path ≡ some text
      → D.fread f path (length text) ≡ text
