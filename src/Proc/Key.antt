-- ===== src/Proc/Key.antt =====
-- Which key the loop over a proc map arrives at.
use daemon_file_hosting.Base.{
  ℕ, zero, suc, ◌+◌, ◌^◌, ◌≤◌, ◌<◌, ◌≡◌, ◌≢◌, refl, ◌∙◌, ap, inl, inr, Bool, true, false, ◌||◌,
  List, [], ◌∷◌, ◌++◌, Bytes, bytes_eq, bytes_eq_sound, arith, Bool-cases,
}
use daemon_file_hosting.Base.Int.{pos}
use daemon_file_hosting.Number.{Strtol, strtol, print_int64}
use daemon_file_hosting.Number.RoundTrip.{strtol-print_int64}
use daemon_file_hosting.Proc.{scan_keys, errno_after, max_after}

abbrev pub contains : List Bytes → Bytes → Bool
contains [] k = false
contains (key ∷ more) k = bytes_eq key k || contains more k

-- No key is out of the range of a `long`.
abbrev pub InRange : List Bytes → Type 0
InRange [] = Unit {0}
InRange (key ∷ more) = ((strtol key).erange ≡ false) × InRange more

-- Once `errno` is not 0 it stays so, and no key counts.
pub scan_keys_stale : (ks : List Bytes) (errno m : ℕ) → errno ≢ 0 → (scan_keys ks errno m).1 ≡ m
unfolding scan_keys
scan_keys_stale [] errno m h = refl
scan_keys_stale (key ∷ more) errno m h =
    let e = errno_after key errno in
    let bad : e ≢ 0 = ground arith in
    let same : max_after key e m ≡ m = ground arith in
    scan_keys_stale more e (max_after key e m) bad ∙ same

pub scan_keys-errno : (ks : List Bytes) (errno m : ℕ) → errno ≢ 0 → (scan_keys ks errno m).0 ≢ 0
unfolding scan_keys
scan_keys-errno [] errno m h = h
scan_keys-errno (key ∷ more) errno m h =
    let e = errno_after key errno in
    let bad : e ≢ 0 = ground arith in scan_keys-errno more e (max_after key e m) bad

le-scan_keys : (ks : List Bytes) (errno m : ℕ) → m ≤ (scan_keys ks errno m).1
unfolding scan_keys
le-scan_keys [] errno m = omega arith
le-scan_keys (key ∷ more) errno m =
    let e = errno_after key errno in
    let grows : m ≤ max_after key e m = ground arith in
    omega (arith, le-scan_keys more e (max_after key e m))

-- A key that is the text of a number counts.
max_after-print :
    (key : Bytes) (n m : ℕ)
    → strtol key ≡ record { value = pos n; rest = []; erange = false }
    → n ≤ max_after key 0 m
max_after-print key n m h = rw h (ground arith)

-- A key in range leaves `errno` at 0.
scan_keys-fine :
    (key : Bytes) (more : List Bytes) (m : ℕ)
    → (strtol key).erange ≡ false
    → scan_keys (key ∷ more) 0 m ≡ scan_keys more 0 (max_after key 0 m)
unfolding scan_keys
scan_keys-fine key more m h = ap (λ (e : ℕ). scan_keys more e (max_after key e m)) fine
  where
    fine : errno_after key 0 ≡ 0
    fine = ground arith

scan_keys-bounds :
    (ks : List Bytes) (n m : ℕ)
    → InRange ks
    → n < 2 ^ 63
    → contains ks (print_int64 n) ≡ true
    → n ≤ (scan_keys ks 0 m).1
unfolding scan_keys
scan_keys-bounds [] n m r h c = cc
scan_keys-bounds (key ∷ more) n m r h c =
    let fine = scan_keys-fine key more m r.0 in
    elim (Bool-cases (bytes_eq key (print_int64 n))) [
      | inl here ↦
          let read : strtol key ≡ record { value = pos n; rest = []; erange = false } =
            rw (bytes_eq_sound key (print_int64 n) here) (strtol-print_int64 n h) in
          rw fine
            (omega (arith, max_after-print key n m read, le-scan_keys more 0 (max_after key 0 m)))
      | inr later ↦ rw fine (scan_keys-bounds more n (max_after key 0 m) r.1 h (ground arith))
    ]

-- Where `errno` is 0 at the start, no key is out of range and the number after the maximum is
-- below 2 ^ 63, its text is no key of the map.
pub next_key_is_new :
    (ks : List Bytes)
    → InRange ks
    → (scan_keys ks 0 0).1 + 1 < 2 ^ 63
    → contains ks (print_int64 ((scan_keys ks 0 0).1 + 1)) ≡ false
next_key_is_new ks r h = elim (Bool-cases (contains ks (print_int64 ((scan_keys ks 0 0).1 + 1)))) [
  | inl there ↦ absurd (omega (arith, scan_keys-bounds ks ((scan_keys ks 0 0).1 + 1) 0 r h there))
  | inr gone ↦ gone
]

-- The keys "1" to "n", in order.
unfoldable pub numbers : ℕ → List Bytes
numbers zero = []
numbers (suc n) = numbers n ++ (print_int64 (suc n) ∷ [])

scan_keys-append :
    (ks more : List Bytes) (errno m : ℕ)
    → scan_keys (ks ++ more) errno m ≡ (let r = scan_keys ks errno m in scan_keys more r.0 r.1)
unfolding scan_keys
scan_keys-append [] more errno m = refl
scan_keys-append (key ∷ ks) more errno m = scan_keys-append ks more _ _

scan_keys-one :
    (key : Bytes) (n : ℕ)
    → strtol key ≡ record { value = pos (suc n); rest = []; erange = false }
    → scan_keys (key ∷ []) 0 n ≡ (0, suc n)
unfolding scan_keys
scan_keys-one key n h = rw (h, scan_keys) (ground arith)

-- On a map whose keys are "1" to "n" the loop arrives at `n`, and leaves `errno` at 0.
pub scan_keys-numbers : (n : ℕ) → n < 2 ^ 63 → scan_keys (numbers n) 0 0 ≡ (0, n)
unfolding numbers scan_keys
scan_keys-numbers zero h = refl
scan_keys-numbers (suc n) h =
    rw (scan_keys-append, scan_keys-numbers n (omega arith))
      (scan_keys-one (print_int64 (suc n)) n (strtol-print_int64 (suc n) h))

pub InRange-append : (ks more : List Bytes) → InRange ks → InRange more → InRange (ks ++ more)
InRange-append [] more h k = k
InRange-append (key ∷ ks) more h k = (h.0, InRange-append ks more h.1 k)

pub numbers-InRange : (n : ℕ) → n < 2 ^ 63 → InRange (numbers n)
unfolding numbers
numbers-InRange zero h = tt
numbers-InRange (suc n) h =
    InRange-append (numbers n) _ (numbers-InRange n (omega arith))
      (ap (λ (r : Strtol). r.erange) (strtol-print_int64 (suc n) h), tt)
