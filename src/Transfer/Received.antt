-- ===== src/Transfer/Received.antt =====
-- What `ssl_recv_all` has taken in when it returns, however the reads are cut.
use daemon_file_hosting.Base.{
  ℕ, zero, suc, ◌+◌, ◌-◌, ◌^◌, ◌≤◌, ◌<◌, ◌≡◌, ◌≢◌, refl, sym, ◌∙◌, ap, inl, inr, true, false, ◌++◌,
  [], ◌∷◌, Option, none, some, Bytes, length, length-append, append_assoc, arith, ltb, ltb→lt,
  Bool-cases, Option-cases,
}
use daemon_file_hosting.Base.Int.{ℤ, pos, size_to_int, size_to_int-small}
use daemon_file_hosting.External.{Tls}
use daemon_file_hosting.External.Laws.{IsStream}
use daemon_file_hosting.Transfer.{arrived, recv_loop, ssl_recv_all}

pub arrived-pos : (o : Option Bytes) (s : Bytes) → arrived o ≡ some s → 0 < length s
arrived-pos none s h = cc
arrived-pos (some []) s h = cc
arrived-pos (some (b ∷ r)) s h = ground arith

module _ (T : Tls) where
  -- What one round reads.
  abbrev round : ℕ → Bytes → T.Conn → Option Bytes × T.Conn
  round len got c = T.ssl_read c (size_to_int (len - length got))

  recv_loop-done :
      (fuel len : ℕ) (got : Bytes) (c : T.Conn)
      → ltb (length got) len ≡ false
      → recv_loop T (suc fuel) len got c ≡ (some got, c)
  unfolding recv_loop
  recv_loop-done fuel len got c h = rw (h, recv_loop)

  recv_loop-stop :
      (fuel len : ℕ) (got : Bytes) (c : T.Conn)
      → ltb (length got) len ≡ true
      → arrived (round len got c).0 ≡ none
      → recv_loop T (suc fuel) len got c ≡ (none, (round len got c).1)
  unfolding recv_loop
  recv_loop-stop fuel len got c h k = rw (h, k, recv_loop)

  recv_loop-more :
      (fuel len : ℕ) (got : Bytes) (c : T.Conn) {s : Bytes}
      → ltb (length got) len ≡ true
      → arrived (round len got c).0 ≡ some s
      → recv_loop T (suc fuel) len got c ≡ recv_loop T fuel len (got ++ s) (round len got c).1
  unfolding recv_loop
  recv_loop-more fuel len got c h k = rw (h, k, recv_loop)

  recv_loop-fuel :
      (fuel more len : ℕ) (got : Bytes) (c : T.Conn)
      → 0 < fuel
      → 0 < more
      → len < fuel + length got
      → len < more + length got
      → recv_loop T fuel len got c ≡ recv_loop T more len got c
  recv_loop-fuel zero more len got c p q h k = absurd (omega arith)
  recv_loop-fuel (suc fuel) zero len got c p q h k = absurd (omega arith)
  recv_loop-fuel (suc fuel) (suc more) len got c p q h k =
      elim (Bool-cases (ltb (length got) len)) [
        | inr done ↦ cc (recv_loop-done fuel len got c done, recv_loop-done more len got c done)
        | inl again ↦ elim (Option-cases (arrived (round len got c).0)) [
          | inl stop ↦
              cc
                (recv_loop-stop fuel len got c again stop, recv_loop-stop more len got c again stop)
          | inr (s, e) ↦
              let room = ltb→lt (length got) len again in
              let s_pos = arrived-pos (round len got c).0 s e in
              let grown = length-append got s in
              recv_loop-more fuel len got c again e
              ∙ recv_loop-fuel fuel more len (got ++ s) (round len got c).1 (omega arith)
                  (omega arith) (omega arith) (omega arith)
              ∙ sym (recv_loop-more more len got c again e)
        ]
      ]

  -- The loop ends for every behaviour of the connection: more fuel changes nothing.
  pub ssl_recv_all-fuel :
      (fuel len : ℕ) (c : T.Conn) → len < fuel → recv_loop T fuel len [] c ≡ ssl_recv_all T len c
  unfolding ssl_recv_all
  ssl_recv_all-fuel fuel len c h =
      recv_loop-fuel fuel (len + 1) len [] c (omega arith) (omega arith) (omega arith) (omega arith)

module _ (T : Tls) (S : IsStream T) where
  -- A call that began with `all` to come has, if it succeeded, taken exactly the first `len` bytes.
  abbrev LoopReceived : ℕ → Bytes → Option Bytes × T.Conn → Type 0
  LoopReceived len all r =
      (b : Bytes) → r.0 ≡ some b → (length b ≡ len) × (all ≡ b ++ S.incoming r.1)

  recv_loop-Received :
      (fuel len : ℕ) (all got : Bytes) (c : T.Conn)
      → len < 2 ^ 31
      → length got ≤ len
      → all ≡ got ++ S.incoming c
      → LoopReceived len all (recv_loop T fuel len got c)
  unfolding recv_loop
  recv_loop-Received zero len all got c small le e = λ b h. cc
  recv_loop-Received (suc fuel) len all got c small le e =
      elim (Bool-cases (ltb (length got) len)) [
        | inr done ↦ rw (recv_loop-done T fuel len got c done) (λ b h. (ground arith, ground arith))
        | inl again ↦ elim (Option-cases (arrived (round T len got c).0)) [
          | inl stop ↦ rw (recv_loop-stop T fuel len got c again stop) (λ b h. cc)
          | inr (s, here) ↦
              let (fits, next) =
                S.read_some c (len - length got) s (size_to_int (len - length got))
                  (size_to_int-small (len - length got) (omega arith)) here in
              rw (recv_loop-more T fuel len got c again here) (
                recv_loop-Received fuel len all (got ++ s) (round T len got c).1 small
                  (omega (arith, length-append got s))
                  (e ∙ ap (λ r. got ++ r) next ∙ sym (append_assoc got s _)))
        ]
      ]

  -- For a length below 2 ^ 31, when `ssl_recv_all` succeeds it has delivered exactly the next `len`
  -- bytes of the text to come, and left the rest.
  pub ssl_recv_all-exact :
      (len : ℕ) (c : T.Conn) (b : Bytes)
      → len < 2 ^ 31
      → (ssl_recv_all T len c).0 ≡ some b
      → (length b ≡ len) × (S.incoming c ≡ b ++ S.incoming (ssl_recv_all T len c).1)
  unfolding ssl_recv_all
  ssl_recv_all-exact len c b small =
      recv_loop-Received (len + 1) len (S.incoming c) [] c small (omega arith) refl b

-- A read of a connection with something to come delivers something.
pub record KeepsComing (T : Tls) (S : IsStream T) : Type 0 where
  pub read_moves :
      (c : T.Conn) (k : ℕ) (num : ℤ)
      → num ≡ pos (suc k)
      → 0 < length (S.incoming c)
      → arrived (T.ssl_read c num).0 ≢ none

module _ (T : Tls) (S : IsStream T) (K : KeepsComing T S) where
  recv_loop-succeeds :
      (fuel len : ℕ) (got : Bytes) (c : T.Conn)
      → len < 2 ^ 31
      → 0 < fuel
      → len < fuel + length got
      → len ≤ length got + length (S.incoming c)
      → (recv_loop T fuel len got c).0 ≢ none
  unfolding recv_loop
  recv_loop-succeeds zero len got c small p h there = absurd (omega arith)
  recv_loop-succeeds (suc fuel) len got c small p h there =
      elim (Bool-cases (ltb (length got) len)) [
        | inr done ↦ rw (recv_loop-done T fuel len got c done) (λ e. cc e)
        | inl again ↦
            let room = ltb→lt (length got) len again in
            let missing = len - length got in
            let small_one = size_to_int-small missing (omega arith) in
            elim (Option-cases (arrived (round T len got c).0)) [
              | inl stop ↦ absurd (
                  K.read_moves c (missing - 1) _ (small_one ∙ ap pos (omega arith)) (omega arith)
                    stop)
              | inr (s, e) ↦
                  let (fits, next) = S.read_some c missing s _ small_one e in
                  let s_pos = arrived-pos (round T len got c).0 s e in
                  let left : length (S.incoming c)
                      ≡ length s + length (S.incoming (round T len got c).1) =
                    ap length next ∙ length-append s _ in
                  rw (recv_loop-more T fuel len got c again e) (
                    recv_loop-succeeds fuel len (got ++ s) (round T len got c).1 small (omega arith)
                      (omega (arith, length-append got s))
                      (omega (arith, length-append got s, left)))
            ]
      ]

  -- Over a connection whose reads deliver something as long as there is something to come,
  -- `ssl_recv_all` succeeds for every length below 2 ^ 31 that the text to come has.
  pub ssl_recv_all-succeeds :
      (len : ℕ) (c : T.Conn)
      → len < 2 ^ 31
      → len ≤ length (S.incoming c)
      → (ssl_recv_all T len c).0 ≢ none
  unfolding ssl_recv_all
  ssl_recv_all-succeeds len c small there =
      recv_loop-succeeds (len + 1) len [] c small (omega arith) (omega arith) (omega arith)
