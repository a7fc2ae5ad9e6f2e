-- ===== src/Number.antt =====
-- Numbers as text, for the keys of a proc map: `strtol` in base 10 and printf's "%" PRId64.
pub mod RoundTrip
use daemon_file_hosting.Base.{
  ℕ, zero, suc, ◌+◌, ◌-◌, ◌*◌, ◌/◌, ◌%◌, ◌^◌, Bool, true, false, ◌&&◌, ◌||◌, [], ◌∷◌, Bytes, codes,
  drop, starts_with, ltb, leb, ◌==◌, if◌then◌else◌,
}
use daemon_file_hosting.Base.Int.{ℤ, pos, negsuc}

abbrev is_digit : ℕ → Bool
is_digit c = leb b'0' c && leb c b'9'

abbrev is_space : ℕ → Bool
is_space c = c == b' ' || (leb 9 c && leb c 13)

skip_spaces : Bytes → Bytes
skip_spaces [] = []
skip_spaces (c ∷ s) = if is_space c then skip_spaces s else c ∷ s

starts_digit : Bytes → Bool
starts_digit [] = false
starts_digit (c ∷ s) = is_digit c

-- The digits at the front, added to `acc`, and what follows them.
read_digits : ℕ → Bytes → ℕ × Bytes
read_digits acc [] = (acc, [])
read_digits acc (c ∷ s) = if is_digit c then read_digits (acc * 10 + (c - b'0')) s else (acc, c ∷ s)

-- The value, the text at `*endptr`, and whether `errno` is set to ERANGE.
pub record Strtol : Type 0 where
  pub value : ℤ
  pub rest : Bytes
  pub erange : Bool

abbrev clamp : Bool → ℕ × Bytes → Strtol
clamp false (n, rest) =
    if ltb n (2 ^ 63)
    then record { value = pos n; rest = rest; erange = false }
    else record { value = pos (2 ^ 63 - 1); rest = rest; erange = true }
clamp true (n, rest) =
    if leb n (2 ^ 63)
    then record { value = if n == 0 then pos 0 else negsuc (n - 1); rest = rest; erange = false }
    else record { value = negsuc (2 ^ 63 - 1); rest = rest; erange = true }

-- With no digit after the blanks and the sign nothing is read.
unfoldable pub strtol : Bytes → Strtol
unfolding skip_spaces starts_digit read_digits
strtol s =
    let t = skip_spaces s in
    let minus = starts_with t (codes "-") in
    let u = if minus || starts_with t (codes "+") then drop 1 t else t in
    if starts_digit u
    then clamp minus (read_digits 0 u)
    else record { value = pos 0; rest = s; erange = false }

-- The digits of `n`, in front of `out`.
emit : ℕ → ℕ → Bytes → Bytes
emit zero n out = out
emit (suc fuel) n out =
    let more = emit fuel (n / 10) ((b'0' + n % 10) ∷ out) in if n == 0 then out else more

-- A 64-bit number has at most 20 digits.
unfoldable pub decimal : ℕ → Bytes
unfolding emit
decimal n = if n == 0 then b'0' ∷ [] else emit 20 n []

-- "%" PRId64 of the `int64_t` with the bits of `n`, for `n` up to 2 ^ 63.
unfoldable pub print_int64 : ℕ → Bytes
unfolding decimal
print_int64 n = if ltb n (2 ^ 63) then decimal n else b'-' ∷ decimal (2 ^ 64 - n)
