-- ===== src/Tests/Transfers.antt =====
-- Transfers, hashes and the cipher, over the small platform.
use daemon_file_hosting.Base.{
  ◌≤◌, ◌≢◌, none, true, ◌≡◌, refl, ◌++◌, [], some, Bytes, codes, length, arith,
}
use daemon_file_hosting.Base.Int.{pos, size_to_int}
use daemon_file_hosting.Transfer.{send_loop, ssl_send_all, ssl_recv_all}
use daemon_file_hosting.Transfer.Sent.{
  Delivered, ssl_send_all-fuel, ssl_send_all-Delivered, ssl_send_all-succeeds,
}
use daemon_file_hosting.Transfer.Received.{ssl_recv_all-exact, ssl_recv_all-succeeds}
use daemon_file_hosting.Hash.{compute_file_blake3, compute_buffer_blake3}
use daemon_file_hosting.Hash.{compute_file_blake3-eq-buffer}
use daemon_file_hosting.Cipher.AesGcm.{
  outcome, filled, crypto_encrypt_aes_gcm, crypto_encrypt_aes_gcm-eq-enhanced_aes_gcm_encrypt,
}
use daemon_file_hosting.Cipher.{Sealed, enhanced_aes_gcm_encrypt, enhanced_aes_gcm_decrypt}
use daemon_file_hosting.Cipher.Contexts.{cipher-live}
use daemon_file_hosting.Cipher.RoundTrip.{decrypt-encrypt}
use daemon_file_hosting.Tests.Platform.{
  Pipe, pipe_tls, pipe_IsStream, pipe_KeepsMoving, pipe_KeepsComing, first_bytes,
  first_bytes-IsStreaming, plain_system, flip_evp, flip_IsGcm, flip_CountsContexts, copies,
}

abbrev greeting : Bytes
greeting = codes "hello, server"

abbrev pipe : Pipe
pipe = record { sent = codes "ok"; incoming = codes "hello, client" }

sent_text : (ssl_send_all pipe_tls greeting pipe).1.sent ≡ codes "okhello, server"
unfolding ssl_send_all size_to_int
sent_text = refl

ssl_send_all-fuel_example :
    send_loop pipe_tls 100 greeting 0 pipe ≡ ssl_send_all pipe_tls greeting pipe
ssl_send_all-fuel_example = ssl_send_all-fuel pipe_tls 100 greeting pipe (omega arith)

ssl_send_all-Delivered_example :
    Delivered pipe.sent greeting
      (ssl_send_all pipe_tls greeting pipe).1.sent
      (ssl_send_all pipe_tls greeting pipe).0
unfolding pipe_IsStream
ssl_send_all-Delivered_example =
    ssl_send_all-Delivered pipe_tls pipe_IsStream greeting pipe (omega arith)

received : (ssl_recv_all pipe_tls 7 pipe).0 ≡ some (codes "hello, ")
unfolding ssl_recv_all size_to_int
received = refl

ssl_recv_all-exact_example :
    (length (codes "hello, ") ≡ 7)
    × (pipe.incoming ≡ codes "hello, " ++ (ssl_recv_all pipe_tls 7 pipe).1.incoming)
unfolding pipe_IsStream
ssl_recv_all-exact_example =
    ssl_recv_all-exact pipe_tls pipe_IsStream 7 pipe (codes "hello, ") (omega arith) received

compute_file_blake3-eq-buffer_example :
    compute_file_blake3 first_bytes (copies 5000 3)
    ≡ compute_buffer_blake3 first_bytes (copies 5000 3)
compute_file_blake3-eq-buffer_example =
    compute_file_blake3-eq-buffer first_bytes first_bytes-IsStreaming (copies 5000 3)

cipher-live_example :
    ((enhanced_aes_gcm_encrypt flip_evp greeting (pos 13) [] [] 4).1 ≡ 4)
    × ((enhanced_aes_gcm_decrypt flip_evp greeting (pos 13) [] [] [] 4).1 ≡ 4)
unfolding flip_CountsContexts
cipher-live_example = cipher-live flip_evp flip_CountsContexts greeting (pos 13) [] [] [] 4

abbrev sealed : Sealed
sealed = record { ciphertext = codes "idmmn-!rdswds"; tag = copies 16 13 }

sealing :
    (enhanced_aes_gcm_encrypt flip_evp greeting (pos (length greeting)) [] [] 0).0 ≡ some sealed
unfolding enhanced_aes_gcm_encrypt
sealing = refl

opening :
    (enhanced_aes_gcm_decrypt flip_evp sealed.ciphertext
      (pos (length sealed.ciphertext))
      []
      []
      sealed.tag
      0).0
    ≡ some greeting
unfolding enhanced_aes_gcm_decrypt
opening = refl

decrypt-encrypt_example : (length sealed.ciphertext ≡ length greeting) × (greeting ≡ greeting)
decrypt-encrypt_example =
    decrypt-encrypt flip_evp flip_IsGcm greeting [] [] 0 0 sealed greeting sealing opening

ssl_send_all-succeeds_example : (ssl_send_all pipe_tls greeting pipe).0 ≡ true
ssl_send_all-succeeds_example =
    ssl_send_all-succeeds pipe_tls pipe_KeepsMoving greeting pipe (omega arith)

enough_comes : 7 ≤ length (pipe_IsStream.incoming pipe)
unfolding pipe_IsStream
enough_comes = omega arith

ssl_recv_all-succeeds_example : (ssl_recv_all pipe_tls 7 pipe).0 ≢ none
ssl_recv_all-succeeds_example =
    ssl_recv_all-succeeds pipe_tls pipe_IsStream pipe_KeepsComing 7 pipe (omega arith) enough_comes

crypto_encrypt_aes_gcm-eq-enhanced_aes_gcm_encrypt_example :
    outcome flip_evp
      (λ c n. some c)
      plain_system
      (crypto_encrypt_aes_gcm flip_evp (λ c n. some c) plain_system greeting [] [] 0 5)
    ≡ enhanced_aes_gcm_encrypt flip_evp greeting
        (size_to_int (length greeting))
        []
        (filled (plain_system.rand_bytes 5 12).0 [])
        0
crypto_encrypt_aes_gcm-eq-enhanced_aes_gcm_encrypt_example =
    crypto_encrypt_aes_gcm-eq-enhanced_aes_gcm_encrypt flip_evp (λ c n. some c) plain_system
      (λ c. refl) greeting [] [] 0 5
