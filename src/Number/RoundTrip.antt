-- ===== src/Number/RoundTrip.antt =====
-- `strtol` reads back what the program prints.
use native.Mathlib.Nat.{pow-suc}
use daemon_file_hosting.Base.{
  ℕ, zero, suc, ◌+◌, ◌-◌, ◌/◌, ◌%◌, ◌^◌, ◌≤◌, ◌<◌, ◌≡◌, inl, inr, true, false, [], ◌∷◌, Bytes,
  arith, ◌==◌, Bool-cases, lt→ltb, ltb, length,
}
use daemon_file_hosting.Base.Int.{pos}
use daemon_file_hosting.Number.{
  is_digit, is_space, starts_digit, skip_spaces, read_digits, strtol, emit, decimal, print_int64,
}

digit-code : (n : ℕ) → is_digit (b'0' + n % 10) ≡ true
digit-code n = ground arith

read_digits-emit :
    (fuel n : ℕ) (out : Bytes) → n < 10 ^ fuel → read_digits 0 (emit fuel n out) ≡ read_digits n out
unfolding emit read_digits
read_digits-emit zero n out h = ground arith
read_digits-emit (suc fuel) n out h = elim (Bool-cases (n == 0)) [
  | inl z ↦ ground arith
  | inr nz ↦
      let smaller : n / 10 < 10 ^ fuel = omega (arith, pow-suc 10 fuel) in
      ground (arith, read_digits-emit fuel (n / 10) ((b'0' + n % 10) ∷ out) smaller)
]

starts_digit-emit :
    (fuel n : ℕ) (out : Bytes) → starts_digit out ≡ true → starts_digit (emit fuel n out) ≡ true
unfolding emit starts_digit
starts_digit-emit zero n out h = h
starts_digit-emit (suc fuel) n out h =
    ground (arith, starts_digit-emit fuel (n / 10) ((b'0' + n % 10) ∷ out))

starts_digit-decimal : (n : ℕ) → starts_digit (decimal n) ≡ true
unfolding decimal starts_digit
starts_digit-decimal n = ground (arith, starts_digit-emit 19 (n / 10) ((b'0' + n % 10) ∷ []))

read_digits-decimal : (n : ℕ) → n < 2 ^ 63 → read_digits 0 (decimal n) ≡ (n, [])
unfolding decimal read_digits
read_digits-decimal n h = ground (arith, read_digits-emit 20 n [])

not_blank : (c : ℕ) → is_digit c ≡ true → is_space c ≡ false
not_blank c d = ground arith

not_sign : (c : ℕ) → is_digit c ≡ true → ((c == b'-') ≡ false) × ((c == b'+') ≡ false)
not_sign c d = ground arith

skip_spaces-digit : (c : ℕ) (s : Bytes) → is_digit c ≡ true → skip_spaces (c ∷ s) ≡ c ∷ s
unfolding skip_spaces
skip_spaces-digit c s d = rw (not_blank c d, skip_spaces)

-- On a text that begins with a digit there is nothing to skip and no sign.
strtol_of_digits :
    (s : Bytes) (n : ℕ)
    → starts_digit s ≡ true
    → read_digits 0 s ≡ (n, [])
    → n < 2 ^ 63
    → strtol s ≡ record { value = pos n; rest = []; erange = false }
unfolding strtol
strtol_of_digits [] n d r h = cc
strtol_of_digits (c ∷ s) n d r h =
    let (no_minus, no_plus) = not_sign c d in
    rw (skip_spaces-digit c s d, no_minus, no_plus, r, d, lt→ltb n (2 ^ 63) h, strtol)

pub print_int64-small : (n : ℕ) → n < 2 ^ 63 → print_int64 n ≡ decimal n
unfolding print_int64
print_int64-small n h = rw (lt→ltb n (2 ^ 63) h, print_int64)

-- The key of any number below 2 ^ 63 is read back as that number, with nothing left over and no
-- range error.
pub strtol-print_int64 :
    (n : ℕ)
    → n < 2 ^ 63
    → strtol (print_int64 n) ≡ record { value = pos n; rest = []; erange = false }
strtol-print_int64 n h =
    rw (print_int64-small n h)
      (strtol_of_digits (decimal n) n (starts_digit-decimal n) (read_digits-decimal n h) h)

length-emit : (fuel n : ℕ) (out : Bytes) → length (emit fuel n out) ≤ fuel + length out
unfolding emit
length-emit zero n out = omega arith
length-emit (suc fuel) n out = ground (arith, length-emit fuel (n / 10) ((b'0' + n % 10) ∷ out))

length-decimal : (n : ℕ) → length (decimal n) ≤ 20
unfolding decimal
length-decimal n = ground (arith, length-emit 19 (n / 10) ((b'0' + n % 10) ∷ []))

-- A printed number has at most 21 characters.
pub length-print_int64 : (n : ℕ) → length (print_int64 n) ≤ 21
unfolding print_int64
length-print_int64 n = elim (Bool-cases (ltb n (2 ^ 63))) [
  | inl small ↦ rw (small, print_int64) (omega (arith, length-decimal n))
  | inr big ↦ rw (big, print_int64) (omega (arith, length-decimal (2 ^ 64 - n)))
]
