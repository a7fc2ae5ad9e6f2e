-- ===== src/Daemon/Events.antt =====
-- The events in a buffer, and what is done with each.
use native.Mathlib.Nat.{zero-add, suc-add}
use daemon_file_hosting.Base.{
  ℕ, zero, suc, ◌+◌, ◌^◌, ◌≤◌, ◌<◌, ◌≡◌, refl, sym, ◌∙◌, ap, List, [], ◌∷◌, ◌++◌, Bytes, length,
  length-append, take, drop, take-append_self, drop-append_self, arith,
}
use daemon_file_hosting.Protocol.{little_endian, from_little_endian}
use daemon_file_hosting.Daemon.{Event, event_at, events_of, event_size}

-- An event as the kernel writes it: the watch, the mask, the cookie, the length, the name's field.
-- The cookie joins the two events of a move.
unfoldable pub encode : ℕ → ℕ → Event → Bytes
encode wd cookie e =
    little_endian 4 wd
    ++ (little_endian 4 e.mask
        ++ (little_endian 4 cookie ++ (little_endian 4 e.len ++ e.name_field)))

-- Events with the watches and the cookies that the kernel writes into them.
abbrev pub Written : Type 0
Written = List (ℕ × ℕ × Event)

abbrev pub events_in : Written → List Event
events_in [] = []
events_in ((wd, cookie, e) ∷ written) = e ∷ events_in written

unfoldable pub encode_all : Written → Bytes
unfolding encode
encode_all [] = []
encode_all ((wd, cookie, e) ∷ written) = encode wd cookie e ++ encode_all written

-- Two words, and the field as long as it says.
pub record IsEvent (e : Event) : Type 0 where
  pub mask_fits : e.mask < 2 ^ 32
  pub len_fits : e.len < 2 ^ 32
  pub field_fits : length e.name_field ≡ e.len

abbrev pub AreEvents : Written → Type 0
AreEvents [] = Unit {0}
AreEvents ((wd, cookie, e) ∷ written) = IsEvent e × AreEvents written

word_round_trip : (n : ℕ) → n < 2 ^ 32 → from_little_endian (little_endian 4 n) ≡ n
word_round_trip n h = omega arith

drop-nil : (n : ℕ) → drop {A = ℕ} n [] ≡ []
drop-nil zero = refl
drop-nil (suc n) = refl

drop-add : (n m : ℕ) (xs : Bytes) → drop (n + m) xs ≡ drop m (drop n xs)
drop-add zero m xs = rw zero-add
drop-add (suc n) m [] = rw (suc-add, drop-nil m)
drop-add (suc n) m (x ∷ xs) = rw suc-add (drop-add n m xs)

-- The first event of a buffer is read back, and the pointer moves to the next.
event_at-encode :
    (wd cookie : ℕ) (e : Event) (rest : Bytes)
    → IsEvent e
    → event_at (encode wd cookie e ++ rest) ≡ e
unfolding encode
event_at-encode wd cookie e rest v =
    let p : from_little_endian (little_endian 4 e.mask) ≡ e.mask =
      word_round_trip e.mask v.mask_fits in
    let q : from_little_endian (little_endian 4 e.len) ≡ e.len = word_round_trip e.len v.len_fits in
    let r : take (from_little_endian (little_endian 4 e.len)) (e.name_field ++ rest)
        ≡ e.name_field =
      ap (λ n. take n (e.name_field ++ rest)) (q ∙ sym v.field_fits)
      ∙ take-append_self e.name_field rest in
    λ i. record { mask = p i; len = q i; name_field = r i }

drop-encode :
    (wd cookie : ℕ) (e : Event) (rest : Bytes)
    → IsEvent e
    → drop (event_size + e.len) (encode wd cookie e ++ rest) ≡ rest
unfolding encode
drop-encode wd cookie e rest v =
    drop-add event_size e.len (encode wd cookie e ++ rest)
    ∙ ap (λ n. drop n (e.name_field ++ rest)) (sym v.field_fits)
    ∙ drop-append_self e.name_field rest

events_of-cons :
    (fuel wd cookie : ℕ) (e : Event) (rest : Bytes)
    → IsEvent e
    → events_of (suc fuel) (encode wd cookie e ++ rest) ≡ e ∷ events_of fuel rest
unfolding encode events_of
events_of-cons fuel wd cookie e rest v =
    ap (λ read. read ∷ events_of fuel (drop (event_size + read.len) (encode wd cookie e ++ rest)))
      (event_at-encode wd cookie e rest v)
    ∙ ap (λ b. e ∷ events_of fuel b) (drop-encode wd cookie e rest v)

length-encode : (wd cookie : ℕ) (e : Event) → 0 < length (encode wd cookie e)
unfolding encode
length-encode wd cookie e = omega arith

-- Whatever whole events the kernel has put in the buffer, of whatever watches and with whatever
-- cookies, the loop over it sees these events, in their order, and no others; rounds as many as the
-- buffer has bytes are enough.
pub events_of-encode_all :
    (fuel : ℕ) (written : Written)
    → AreEvents written
    → length (encode_all written) ≤ fuel
    → events_of fuel (encode_all written) ≡ events_in written
unfolding encode_all events_of
events_of-encode_all zero [] v h = refl
events_of-encode_all (suc fuel) [] v h = refl
events_of-encode_all zero ((wd, cookie, e) ∷ written) v h = absurd (
    omega
      (arith, length-append (encode wd cookie e) (encode_all written), length-encode wd cookie e))
events_of-encode_all (suc fuel) ((wd, cookie, e) ∷ written) (v, vs) h =
    events_of-cons fuel wd cookie e (encode_all written) v
    ∙ ap (λ l. e ∷ l)
        (events_of-encode_all fuel written vs (
          omega (
            arith,
            length-append (encode wd cookie e) (encode_all written),
            length-encode wd cookie e,
          )))
