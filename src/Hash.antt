-- ===== src/Hash.antt =====
-- BLAKE3 over the library's hasher: `compute_buffer_blake3` of src/server/server.c hashes a buffer
-- at once, `compute_file_blake3` of src/client/client.c a file in pieces of 4096 bytes.
use daemon_file_hosting.Base.{
  ℕ, zero, suc, ◌+◌, ◌<◌, ◌≡◌, sym, ◌∙◌, ap, [], ◌∷◌, Bytes, length, take, drop, take-append-drop,
  length-drop, arith,
}
use daemon_file_hosting.External.{Blake3}
use daemon_file_hosting.External.Laws.{IsStreaming}
use daemon_file_hosting.Protocol.{blake3_hash_len, buffer_size}

module _ (B : Blake3) where
  unfoldable pub compute_buffer_blake3 : Bytes → Bytes
  compute_buffer_blake3 text =
      B.hasher_finalize (B.hasher_update B.hasher_init text) blake3_hash_len

  -- The reading loop: `fread` gives the next `size` bytes, or what is left, and 0 at the end.
  hash_loop : ℕ → ℕ → Bytes → B.Hasher → B.Hasher
  hash_loop size zero text h = h
  hash_loop size (suc fuel) [] h = h
  hash_loop size (suc fuel) (b ∷ text) h =
      hash_loop size fuel (drop size (b ∷ text)) (B.hasher_update h (take size (b ∷ text)))

  -- On the contents of a file that can be opened and read to its end.
  unfoldable pub compute_file_blake3 : Bytes → Bytes
  unfolding hash_loop
  compute_file_blake3 text =
      B.hasher_finalize (hash_loop buffer_size (length text + 1) text B.hasher_init) blake3_hash_len

module _ (B : Blake3) (S : IsStreaming B) where
  hash_loop-update :
      (size fuel : ℕ) (text : Bytes) (h : B.Hasher)
      → 0 < size
      → length text < fuel
      → hash_loop B size fuel text h ≡ B.hasher_update h text
  unfolding hash_loop
  hash_loop-update size zero text h p lt = absurd (omega arith)
  hash_loop-update size (suc fuel) [] h p lt = sym (S.update-nil h)
  hash_loop-update size (suc fuel) (b ∷ text) h p lt =
      hash_loop-update size fuel (drop size (b ∷ text)) (B.hasher_update h (take size (b ∷ text))) p
        (omega (arith, length-drop size (b ∷ text)))
      ∙ S.update-append h (take size (b ∷ text)) (drop size (b ∷ text))
      ∙ ap (B.hasher_update h) (take-append-drop size (b ∷ text))

  -- The client's hash of a file, taken in pieces, is the server's hash of the same bytes, taken at
  -- once.
  pub compute_file_blake3-eq-buffer :
      (text : Bytes) → compute_file_blake3 B text ≡ compute_buffer_blake3 B text
  unfolding compute_file_blake3 compute_buffer_blake3
  compute_file_blake3-eq-buffer text =
      ap (λ h. B.hasher_finalize h blake3_hash_len)
        (hash_loop-update buffer_size (length text + 1) text B.hasher_init (omega arith)
          (omega arith))
