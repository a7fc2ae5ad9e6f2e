-- ===== src/Plain/Delivery.antt =====
-- What `send_all` has sent and `recv_all` has received, however often a signal interrupts them.
use mathlib.Core.Option.{some-injective}
use daemon_file_hosting.Base.{
  ℕ, zero, suc, ◌+◌, ◌-◌, ◌<◌, ◌≤◌, ◌≡◌, refl, sym, ◌∙◌, ap, inl, inr, Bool, true, false, [], ◌∷◌,
  ◌++◌, Option, none, some, Bytes, length, length-append, length-drop, take, drop, take-append-drop,
  append_assoc, append-nil, arith, ltb, ltb→lt, Bool-cases,
}
use daemon_file_hosting.Plain.{
  Sent, wrote, send_interrupted, send_failed, Came, bytes, recv_interrupted, recv_failed, Sockets,
  send_all, recv_loop, recv_all,
}

-- A connection as the text that has gone out and the text to come in.
pub record IsPlainStream (K : Sockets) : Type 0 where
  pub sent : K.Conn → Bytes
  pub incoming : K.Conn → Bytes
  pub send_some :
      (c : K.Conn) (buf : Bytes) (n : ℕ)
      → (K.send c buf).0 ≡ wrote n
      → (n ≤ length buf) × (sent (K.send c buf).1 ≡ sent c ++ take n buf)
  pub send_none :
      (c : K.Conn) (buf : Bytes)
      → (K.send c buf).0 ≡ send_interrupted
      → sent (K.send c buf).1 ≡ sent c
  pub recv_some :
      (c : K.Conn) (n : ℕ) (s : Bytes)
      → (K.recv c n).0 ≡ bytes s
      → (length s ≤ n) × (incoming c ≡ s ++ incoming (K.recv c n).1)
  pub recv_none :
      (c : K.Conn) (n : ℕ)
      → (K.recv c n).0 ≡ recv_interrupted
      → incoming (K.recv c n).1 ≡ incoming c

-- A bound on how often calls are still interrupted, or write nothing.
pub record IsCalming (K : Sockets) : Type 0 where
  pub unrest : K.Conn → ℕ
  pub send_calms :
      (c : K.Conn) (buf : Bytes)
      → (K.send c buf).0 ≡ send_interrupted
      → unrest (K.send c buf).1 < unrest c
  pub send_nothing_calms :
      (c : K.Conn) (b : ℕ) (buf : Bytes)
      → (K.send c (b ∷ buf)).0 ≡ wrote 0
      → unrest (K.send c (b ∷ buf)).1 < unrest c
  pub send_keeps :
      (c : K.Conn) (buf : Bytes) (n : ℕ)
      → (K.send c buf).0 ≡ wrote (suc n)
      → unrest (K.send c buf).1 ≤ unrest c
  pub recv_calms :
      (c : K.Conn) (n : ℕ) → (K.recv c n).0 ≡ recv_interrupted → unrest (K.recv c n).1 < unrest c
  pub recv_keeps :
      (c : K.Conn) (n : ℕ) (s : Bytes) → (K.recv c n).0 ≡ bytes s → unrest (K.recv c n).1 ≤ unrest c

module _ (K : Sockets) (S : IsPlainStream K) (Q : IsCalming K) where
  -- The call has ended, and where it returned 0 the buffer has gone out whole.
  abbrev pub Ends : Bytes → K.Conn → Option Bool × K.Conn → Type 0
  Ends buf c r = (ok : Bool) × (r.0 ≡ some ok) × (ok ≡ true → S.sent r.1 ≡ S.sent c ++ buf)

  abbrev SendEnds : ℕ → Type 0
  SendEnds fuel =
      (buf : Bytes) (c : K.Conn)
      → length buf + Q.unrest c < fuel
      → Ends buf c (send_all K fuel buf c)

  fewer :
      (b n fuel : ℕ) (buf : Bytes) (c : K.Conn)
      → (K.send c (b ∷ buf)).0 ≡ wrote n
      → length (b ∷ buf) + Q.unrest c < suc fuel
      → length (drop n (b ∷ buf)) + Q.unrest (K.send c (b ∷ buf)).1 < fuel
  fewer b zero fuel buf c e h = let calmer = Q.send_nothing_calms c b buf e in omega arith
  fewer b (suc n) fuel buf c e h =
      let kept = Q.send_keeps c (b ∷ buf) n e in omega (arith, length-drop (suc n) (b ∷ buf))

  -- One round, by what `send` returns, if the other rounds end.
  send_round :
      (b fuel : ℕ) (buf : Bytes) (c : K.Conn) (s : Sent)
      → SendEnds fuel
      → (K.send c (b ∷ buf)).0 ≡ s
      → length (b ∷ buf) + Q.unrest c < suc fuel
      → Ends (b ∷ buf) c (send_all K (suc fuel) (b ∷ buf) c)
  unfolding send_all
  send_round b fuel buf c (wrote n) more e h =
      let all = b ∷ buf in
      let (fits, gone) = S.send_some c all n e in
      let (ok, ends, whole) = more (drop n all) (K.send c all).1 (fewer b n fuel buf c e h) in
      rw (e, send_all)
        (
          ok,
          ends,
          λ t.
              whole t
              ∙ ap (λ x. x ++ drop n all) gone
              ∙ append_assoc (S.sent c) (take n all) (drop n all)
              ∙ ap (λ x. S.sent c ++ x) (take-append-drop n all),
        )
  send_round b fuel buf c send_interrupted more e h =
      let all = b ∷ buf in
      let calmer = Q.send_calms c all e in
      let (ok, ends, whole) = more all (K.send c all).1 (omega arith) in
      rw (e, send_all) (ok, ends, λ t. whole t ∙ ap (λ x. x ++ all) (S.send_none c all e))
  send_round b fuel buf c send_failed more e h = rw (e, send_all) (false, refl, λ t. cc t)

  -- With more rounds than there are bytes and interruptions to come, `send_all` ends, and if it
  -- returns 0 the whole buffer has gone out, in order and once.
  pub send_all-Ends :
      (fuel : ℕ) (buf : Bytes) (c : K.Conn)
      → length buf + Q.unrest c < fuel
      → Ends buf c (send_all K fuel buf c)
  unfolding send_all
  send_all-Ends zero buf c h = absurd (omega arith)
  send_all-Ends (suc fuel) [] c h = (true, refl, λ t. sym (append-nil (S.sent c)))
  send_all-Ends (suc fuel) (b ∷ buf) c h =
      send_round b fuel buf c (K.send c (b ∷ buf)).0 (λ x d k. send_all-Ends fuel x d k) refl h

  -- The call has ended, and what it has taken are the next `len` bytes.
  abbrev pub Takes : ℕ → Bytes → Bytes → Option (Option Bytes) × K.Conn → Type 0
  Takes len got all r =
      (o : Option Bytes) × (r.0 ≡ some o)
      × ((text : Bytes)
          → o ≡ some text
          → (length text ≡ len) × (got ++ all ≡ text ++ S.incoming r.1))

  abbrev RecvEnds : ℕ → Type 0
  RecvEnds fuel =
      (len : ℕ) (got : Bytes) (c : K.Conn)
      → length got ≤ len
      → len + Q.unrest c < fuel + length got
      → Takes len got (S.incoming c) (recv_loop K fuel len got c)

  recv_round :
      (fuel len : ℕ) (got : Bytes) (c : K.Conn) (o : Came)
      → RecvEnds fuel
      → ltb (length got) len ≡ true
      → (K.recv c (len - length got)).0 ≡ o
      → len + Q.unrest c < suc fuel + length got
      → Takes len got (S.incoming c) (recv_loop K (suc fuel) len got c)
  unfolding recv_loop
  recv_round fuel len got c (bytes []) more again e h =
      rw (again, e, recv_loop) (none, refl, λ text t. cc t)
  recv_round fuel len got c (bytes (b ∷ s)) more again e h =
      let piece = b ∷ s in
      let room = ltb→lt (length got) len again in
      let (fits, came) = S.recv_some c (len - length got) piece e in
      let kept = Q.recv_keeps c (len - length got) piece e in
      let (o, ends, taken) =
        more len (got ++ piece) (K.recv c (len - length got)).1
          (omega (arith, length-append got piece)) (omega (arith, length-append got piece)) in
      rw (again, e, recv_loop)
        (
          o,
          ends,
          λ text t.
              let (long, all) = taken text t in
              (long, ap (λ x. got ++ x) came ∙ sym (append_assoc got piece _) ∙ all),
        )
  recv_round fuel len got c recv_interrupted more again e h =
      let calmer = Q.recv_calms c (len - length got) e in
      let room = ltb→lt (length got) len again in
      let (o, ends, taken) =
        more len got (K.recv c (len - length got)).1 (omega arith) (omega arith) in
      rw (again, e, recv_loop)
        (
          o,
          ends,
          λ text t.
              let (long, all) = taken text t in
              (long, ap (λ x. got ++ x) (sym (S.recv_none c (len - length got) e)) ∙ all),
        )
  recv_round fuel len got c recv_failed more again e h =
      rw (again, e, recv_loop) (none, refl, λ text t. cc t)

  recv_loop-Takes : (fuel : ℕ) → RecvEnds fuel
  unfolding recv_loop
  recv_loop-Takes zero len got c fits h = absurd (omega arith)
  recv_loop-Takes (suc fuel) len got c fits h = elim (Bool-cases (ltb (length got) len)) [
    | inr done ↦
        let full : length got ≡ len = ground arith in
        rw (done, recv_loop)
          (
            some got,
            refl,
            λ text t.
                let same : got ≡ text = some-injective _ _ t in
                (ap length (sym same) ∙ full, ap (λ x. x ++ S.incoming c) same),
          )
    | inl again ↦
        recv_round fuel len got c (K.recv c (len - length got)).0
          (λ l g d k m. recv_loop-Takes fuel l g d k m) again refl h
  ]

  -- With more rounds than there are bytes to take and interruptions to come, `recv_all` ends, and
  -- if it succeeds it has taken exactly the next `len` bytes.
  pub recv_all-Takes :
      (fuel len : ℕ) (c : K.Conn)
      → len + Q.unrest c < fuel
      → Takes len [] (S.incoming c) (recv_all K fuel len c)
  unfolding recv_all
  recv_all-Takes fuel len c h = recv_loop-Takes fuel len [] c (omega arith) (omega arith)
