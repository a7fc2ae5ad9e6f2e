-- ===== src/Transfer/Sent.antt =====
-- What `ssl_send_all` has carried out when it returns, however the writes are cut.
use daemon_file_hosting.Base.{
  ℕ, zero, suc, ◌+◌, ◌-◌, ◌^◌, ◌≤◌, ◌<◌, ◌≡◌, ◌≢◌, refl, ap, sym, ◌∙◌, inl, inr, Bool, true, false,
  ◌++◌, none, some, Bytes, length, take, drop, length-drop, take-add, append_assoc, append-nil,
  arith, ltb, Bool-cases, Option-cases, ltb→lt,
}
use daemon_file_hosting.Base.Int.{ℤ, pos, negsuc, size_to_int, size_to_int-small}
use daemon_file_hosting.External.{Tls}
use daemon_file_hosting.External.Laws.{IsStream}
use daemon_file_hosting.Transfer.{progress, send_loop, ssl_send_all}

progress-pos : (z : ℤ) (n : ℕ) → progress z ≡ some n → 0 < n
progress-pos (pos zero) n h = cc
progress-pos (pos (suc k)) n h = ground arith
progress-pos (negsuc k) n h = cc

module _ (T : Tls) where
  -- What one round writes.
  abbrev pub round : Bytes → ℕ → T.Conn → ℤ × T.Conn
  round buf at c = T.ssl_write c (drop at buf) (size_to_int (length buf - at))

  -- The three ways of one round.
  pub send_loop-done :
      (fuel : ℕ) (buf : Bytes) (at : ℕ) (c : T.Conn)
      → ltb at (length buf) ≡ false
      → send_loop T (suc fuel) buf at c ≡ (true, c)
  unfolding send_loop
  send_loop-done fuel buf at c h = rw (h, send_loop)

  pub send_loop-stop :
      (fuel : ℕ) (buf : Bytes) (at : ℕ) (c : T.Conn)
      → ltb at (length buf) ≡ true
      → progress (round buf at c).0 ≡ none
      → send_loop T (suc fuel) buf at c ≡ (false, (round buf at c).1)
  unfolding send_loop
  send_loop-stop fuel buf at c h k = rw (h, k, send_loop)

  pub send_loop-more :
      (fuel : ℕ) (buf : Bytes) (at : ℕ) (c : T.Conn) {n : ℕ}
      → ltb at (length buf) ≡ true
      → progress (round buf at c).0 ≡ some n
      → send_loop T (suc fuel) buf at c ≡ send_loop T fuel buf (at + n) (round buf at c).1
  unfolding send_loop
  send_loop-more fuel buf at c h k = rw (h, k, send_loop)

  -- Any fuel above the number of bytes that are left gives the same result.
  send_loop-fuel :
      (fuel more : ℕ) (buf : Bytes) (at : ℕ) (c : T.Conn)
      → 0 < fuel
      → 0 < more
      → length buf < fuel + at
      → length buf < more + at
      → send_loop T fuel buf at c ≡ send_loop T more buf at c
  send_loop-fuel zero more buf at c p q h k = absurd (omega arith)
  send_loop-fuel (suc fuel) zero buf at c p q h k = absurd (omega arith)
  send_loop-fuel (suc fuel) (suc more) buf at c p q h k = elim (Bool-cases (ltb at (length buf))) [
    | inr done ↦ cc (send_loop-done fuel buf at c done, send_loop-done more buf at c done)
    | inl again ↦ elim (Option-cases (progress (round buf at c).0)) [
      | inl stop ↦
          cc (send_loop-stop fuel buf at c again stop, send_loop-stop more buf at c again stop)
      | inr (n, e) ↦
          let room = ltb→lt at (length buf) again in
          let n_pos = progress-pos (round buf at c).0 n e in
          send_loop-more fuel buf at c again e
          ∙ send_loop-fuel fuel more buf (at + n) (round buf at c).1 (omega arith) (omega arith)
              (omega arith) (omega arith)
          ∙ sym (send_loop-more more buf at c again e)
    ]
  ]

  -- The loop ends for every behaviour of the connection: fuel beyond the number of bytes changes
  -- nothing, since each round that continues has moved the cursor.
  pub ssl_send_all-fuel :
      (fuel : ℕ) (buf : Bytes) (c : T.Conn)
      → length buf < fuel
      → send_loop T fuel buf 0 c ≡ ssl_send_all T buf c
  unfolding ssl_send_all
  ssl_send_all-fuel fuel buf c h =
      send_loop-fuel fuel (length buf + 1) buf 0 c (omega arith) (omega arith) (omega arith)
        (omega arith)

-- `count` bytes of `buf` have gone out since `base`, all of them if the call succeeded.
pub record Delivered (base buf now : Bytes) (ok : Bool) : Type 0 where
  pub count : ℕ
  pub within : count ≤ length buf
  pub carried : now ≡ base ++ take count buf
  pub whole : ok ≡ true → count ≡ length buf

module _ (T : Tls) (S : IsStream T) where
  abbrev LoopDelivered : Bytes → Bytes → Bool × T.Conn → Type 0
  LoopDelivered base buf r = Delivered base buf (S.sent r.1) r.0

  -- One write that moves the cursor keeps the text that has gone out a prefix.
  sent-step :
      (base buf : Bytes) (at n : ℕ) (c : T.Conn)
      → length buf < 2 ^ 31
      → at ≤ length buf
      → S.sent c ≡ base ++ take at buf
      → progress (round T buf at c).0 ≡ some n
      → (at + n ≤ length buf) × (S.sent (round T buf at c).1 ≡ base ++ take (at + n) buf)
  sent-step base buf at n c small le e moved =
      let (k, t) =
        S.write_some c (drop at buf) (length buf - at) n (size_to_int (length buf - at))
          (size_to_int-small (length buf - at) (omega arith)) (omega (arith, length-drop at buf))
          moved in
      (omega arith, rw (t, e, take-add at n buf) (append_assoc base (take at buf) _))

  sent-stop :
      (base buf : Bytes) (at : ℕ) (c : T.Conn)
      → S.sent c ≡ base ++ take at buf
      → progress (round T buf at c).0 ≡ none
      → S.sent (round T buf at c).1 ≡ base ++ take at buf
  sent-stop base buf at c e stop =
      S.write_none c (drop at buf) (size_to_int (length buf - at)) stop ∙ e

  send_loop-Delivered :
      (fuel : ℕ) (base buf : Bytes) (at : ℕ) (c : T.Conn)
      → length buf < 2 ^ 31
      → at ≤ length buf
      → S.sent c ≡ base ++ take at buf
      → LoopDelivered base buf (send_loop T fuel buf at c)
  unfolding send_loop
  send_loop-Delivered zero base buf at c small le e = record {
    count = at;
    within = le;
    carried = e;
    whole = λ h. cc;
  }
  send_loop-Delivered (suc fuel) base buf at c small le e =
      elim (Bool-cases (ltb at (length buf))) [
        | inr done ↦
            rw (send_loop-done T fuel buf at c done)
              (record { count = at; within = le; carried = e; whole = λ h. ground arith })
        | inl again ↦ elim (Option-cases (progress (round T buf at c).0)) [
          | inl stop ↦ rw (send_loop-stop T fuel buf at c again stop) (record {
            count = at;
            within = le;
            carried = sent-stop base buf at c e stop;
            whole = λ h. cc;
          })
          | inr (n, moved) ↦
              let (le', e') = sent-step base buf at n c small le e moved in
              rw (send_loop-more T fuel buf at c again moved)
                (send_loop-Delivered fuel base buf (at + n) (round T buf at c).1 small le' e')
        ]
      ]

  -- For a buffer below 2 ^ 31 bytes `ssl_send_all` carries out a prefix of it, in order and once,
  -- and when it returns 0 the prefix is the whole buffer.
  pub ssl_send_all-Delivered :
      (buf : Bytes) (c : T.Conn)
      → length buf < 2 ^ 31
      → Delivered (S.sent c) buf (S.sent (ssl_send_all T buf c).1) (ssl_send_all T buf c).0
  unfolding ssl_send_all
  ssl_send_all-Delivered buf c small =
      send_loop-Delivered (length buf + 1) (S.sent c) buf 0 c small (omega arith)
        (sym (append-nil (S.sent c)))

-- A connection that never fails a write of something that the buffer holds.
pub record KeepsMoving (T : Tls) : Type 0 where
  pub write_moves :
      (c : T.Conn) (buf : Bytes) (k : ℕ) (num : ℤ)
      → num ≡ pos (suc k)
      → suc k ≤ length buf
      → progress (T.ssl_write c buf num).0 ≢ none

module _ (T : Tls) (K : KeepsMoving T) where
  send_loop-succeeds :
      (fuel : ℕ) (buf : Bytes) (at : ℕ) (c : T.Conn)
      → length buf < 2 ^ 31
      → 0 < fuel
      → length buf < fuel + at
      → (send_loop T fuel buf at c).0 ≡ true
  unfolding send_loop
  send_loop-succeeds zero buf at c small p h = absurd (omega arith)
  send_loop-succeeds (suc fuel) buf at c small p h = elim (Bool-cases (ltb at (length buf))) [
    | inr done ↦ rw (send_loop-done T fuel buf at c done) refl
    | inl again ↦
        let room = ltb→lt at (length buf) again in
        let count : size_to_int (length buf - at) ≡ pos (suc (length buf - at - 1)) =
          size_to_int-small (length buf - at) (omega arith) ∙ ap pos (omega arith) in
        elim (Option-cases (progress (round T buf at c).0)) [
          | inl stop ↦ absurd (
              K.write_moves c (drop at buf) (length buf - at - 1) _ count
                (omega (arith, length-drop at buf)) stop)
          | inr (n, e) ↦
              let n_pos = progress-pos (round T buf at c).0 n e in
              rw (send_loop-more T fuel buf at c again e) (
                send_loop-succeeds fuel buf (at + n) (round T buf at c).1 small (omega arith)
                  (omega arith))
        ]
  ]

  -- Over a connection that never fails a write of something, `ssl_send_all` returns 0 for every
  -- buffer below 2 ^ 31 bytes, however few bytes a write takes.
  pub ssl_send_all-succeeds :
      (buf : Bytes) (c : T.Conn) → length buf < 2 ^ 31 → (ssl_send_all T buf c).0 ≡ true
  unfolding ssl_send_all
  ssl_send_all-succeeds buf c small =
      send_loop-succeeds (length buf + 1) buf 0 c small (omega arith) (omega arith)
