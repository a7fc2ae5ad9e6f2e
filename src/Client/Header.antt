-- ===== src/Client/Header.antt =====
-- The request header that a client writes and the server reads.
use native.Mathlib.Nat.{suc-add}
use daemon_file_hosting.Base.{
  ℕ, zero, suc, ◌+◌, ◌%◌, ◌^◌, ◌≤◌, ◌<◌, ◌≡◌, sym, ◌∙◌, ap, [], ◌∷◌, ◌++◌, Bytes, length, take,
  drop, take-append_self, arith,
}
use daemon_file_hosting.Base.Int.{
  ℤ, pos, negsuc, pos_part, neg_part, to_size, int_of_bits, long_of_bits,
}
use daemon_file_hosting.Protocol.{RequestHeader, little_endian, from_little_endian}
use daemon_file_hosting.Server.Session.{decode_request}
use daemon_file_hosting.Client.{encode_request, after_filename, after_hash, zeros}

-- Arrays of the right lengths, numbers in the range of their types.
pub record IsHeader (h : RequestHeader) : Type 0 where
  pub command_low : neg_part h.command ≤ 2 ^ 31
  pub command_high : pos_part h.command < 2 ^ 31
  pub filename_length : length h.filename ≡ 256
  pub filesize_low : neg_part h.filesize ≤ 2 ^ 63
  pub filesize_high : pos_part h.filesize < 2 ^ 63
  pub offset_low : neg_part h.offset ≤ 2 ^ 63
  pub offset_high : pos_part h.offset < 2 ^ 63
  pub flags_fit : h.flags < 256
  pub hash_length : length h.file_hash ≡ 32
  pub recipient_length : length h.recipient ≡ 65

pub four_bytes : (n : ℕ) → from_little_endian (little_endian 4 n) ≡ n % 2 ^ 32
four_bytes n = omega arith

int_round_trip :
    (z : ℤ)
    → neg_part z ≤ 2 ^ 31
    → pos_part z < 2 ^ 31
    → int_of_bits (from_little_endian (little_endian 4 (to_size z))) ≡ z
int_round_trip (pos n) lo hi = rw (four_bytes (to_size (pos n))) (ground arith)
int_round_trip (negsuc n) lo hi = rw (four_bytes (to_size (negsuc n))) (ground arith)

eight_bytes : (n : ℕ) → n < 2 ^ 64 → from_little_endian (little_endian 8 n) ≡ n
eight_bytes n h = omega arith

pub long_round_trip :
    (z : ℤ)
    → neg_part z ≤ 2 ^ 63
    → pos_part z < 2 ^ 63
    → long_of_bits (from_little_endian (little_endian 8 (to_size z))) ≡ z
long_round_trip (pos n) lo hi = rw (eight_bytes (to_size (pos n)) (omega arith)) (ground arith)
long_round_trip (negsuc n) lo hi =
    rw (eight_bytes (to_size (negsuc n)) (omega arith)) (ground arith)

drop-append_more : (n k : ℕ) (xs ys : Bytes) → length xs ≡ n → drop (n + k) (xs ++ ys) ≡ drop k ys
drop-append_more zero k [] ys h = ap (λ m. drop m ys) (omega arith)
drop-append_more zero k (x ∷ xs) ys h = absurd (omega (arith, h))
drop-append_more (suc n) k [] ys h = absurd (omega (arith, h))
drop-append_more (suc n) k (x ∷ xs) ys h =
    rw suc-add (drop-append_more n k xs ys (omega (arith, h)))

take-append_all : (n : ℕ) (xs ys : Bytes) → length xs ≡ n → take n (xs ++ ys) ≡ xs
take-append_all n xs ys h = ap (λ k. take k (xs ++ ys)) (sym h) ∙ take-append_self xs ys

one_byte : (n : ℕ) → from_little_endian (n ∷ []) ≡ n
one_byte n = omega arith

-- Whatever header in the ranges of its types a client writes, the server reads the same header.
pub decode_request-encode_request :
    (h : RequestHeader) → IsHeader h → decode_request (encode_request h) ≡ h
unfolding encode_request decode_request
decode_request-encode_request h v =
    let after_name : (k : ℕ) (rest : Bytes) → drop (256 + k) (h.filename ++ rest) ≡ drop k rest =
      λ k rest. drop-append_more 256 k h.filename rest v.filename_length in
    λ i. record {
      command = int_round_trip h.command v.command_low v.command_high i;
      filename = take-append_all 256 h.filename (after_filename h) v.filename_length i;
      filesize =
          (ap (λ s. long_of_bits (from_little_endian (take 8 s))) (after_name 4 (after_filename h))
              ∙ long_round_trip h.filesize v.filesize_low v.filesize_high)
            i;
      offset =
          (ap (λ s. long_of_bits (from_little_endian (take 8 s))) (after_name 12 (after_filename h))
              ∙ long_round_trip h.offset v.offset_low v.offset_high)
            i;
      flags =
          (ap (λ s. from_little_endian (take 1 s)) (after_name 20 (after_filename h))
              ∙ one_byte h.flags)
            i;
      file_hash =
          (ap (λ s. take 32 s) (after_name 21 (after_filename h))
              ∙ take-append_all 32 h.file_hash (after_hash h) v.hash_length)
            i;
      recipient =
          (ap (λ s. take 65 s)
                (after_name 53 (after_filename h)
                  ∙ drop-append_more 32 0 h.file_hash (after_hash h) v.hash_length)
              ∙ take-append_all 65 h.recipient (zeros 6) v.recipient_length)
            i;
    }
