-- ===== src/Server/Upload/Received.antt =====
-- What the loop of `handle_upload_request` that receives the file has taken in.
use mathlib.Core.Option.{some-injective}
use daemon_file_hosting.Base.{
  ℕ, zero, suc, ◌+◌, ◌-◌, ◌≤◌, ◌<◌, ◌≡◌, ◌≢◌, refl, sym, ◌∙◌, ap, inl, inr, ◌++◌, [], none, some,
  Bytes, length, length-append, append_assoc, append-nil, arith, ltb, Option-cases, if◌then◌else◌,
}
use daemon_file_hosting.Base.Int.{ℤ, pos_part}
use daemon_file_hosting.External.{Platform}
use daemon_file_hosting.External.Laws.{IsStream}
use daemon_file_hosting.World.{World}
use daemon_file_hosting.Protocol.{buffer_size}
use daemon_file_hosting.Transfer.{ssl_recv_all}
use daemon_file_hosting.Transfer.Received.{KeepsComing, ssl_recv_all-exact, ssl_recv_all-succeeds}
use daemon_file_hosting.Server.Upload.{receive_loop, receive_file}

-- The size of the next piece.
abbrev to_read : ℕ → ℕ
to_read n = if ltb (suc n) buffer_size then suc n else buffer_size

to_read-fits : (n : ℕ) → (0 < to_read n) × (to_read n ≤ suc n) × (to_read n ≤ buffer_size)
to_read-fits n = ground arith

module _ (P : Platform) where
  receive_loop-stop :
      (fuel n : ℕ) (got : Bytes) (w : World P)
      → (ssl_recv_all P.tls (to_read n) w.conn).0 ≡ none
      → (receive_loop P (suc fuel) (suc n) got w).0 ≡ none
  unfolding receive_loop
  receive_loop-stop fuel n got w h = rw (h, receive_loop)

  receive_loop-more :
      (fuel n : ℕ) (got : Bytes) (w : World P) {piece : Bytes}
      → (ssl_recv_all P.tls (to_read n) w.conn).0 ≡ some piece
      → receive_loop P (suc fuel) (suc n) got w
        ≡ receive_loop P fuel
            (suc n - to_read n)
            (got ++ piece)
            (record w { conn = (ssl_recv_all P.tls (to_read n) w.conn).1 })
  unfolding receive_loop
  receive_loop-more fuel n got w h = rw (h, receive_loop)

  -- Only the connection changes.
  receive_loop-conn :
      (fuel n : ℕ) (got : Bytes) (w : World P)
      → (c : P.tls.Conn) × ((receive_loop P fuel n got w).1 ≡ record w { conn = c })
  unfolding receive_loop
  receive_loop-conn zero n got w = (w.conn, refl)
  receive_loop-conn (suc fuel) zero got w = (w.conn, refl)
  receive_loop-conn (suc fuel) (suc n) got w =
      let r = ssl_recv_all P.tls (to_read n) w.conn in
      elim (Option-cases r.0) [
        | inl lost ↦ (r.1, rw (lost, receive_loop) refl)
        | inr (piece, e) ↦
            let (c, same) =
              receive_loop-conn fuel (suc n - to_read n) (got ++ piece) (record w { conn = r.1 }) in
            (c, ap (λ x. x.1) (receive_loop-more fuel n got w e) ∙ same)
      ]

  pub receive_file-conn :
      (filesize : ℤ) (w : World P)
      → (c : P.tls.Conn) × ((receive_file P filesize w).1 ≡ record w { conn = c })
  unfolding receive_file
  receive_file-conn filesize w = receive_loop-conn (pos_part filesize + 1) (pos_part filesize) [] w

module _ (P : Platform) (S : IsStream P.tls) where
  receive_loop-exact :
      (fuel n : ℕ) (got text : Bytes) (w : World P)
      → (receive_loop P fuel n got w).0 ≡ some text
      → (rest : Bytes) × (text ≡ got ++ rest)
        × (length rest ≡ n)
        × (S.incoming w.conn ≡ rest ++ S.incoming (receive_loop P fuel n got w).1.conn)
  unfolding receive_loop
  receive_loop-exact zero n got text w h = cc h
  receive_loop-exact (suc fuel) zero got text w h =
      ([], sym (some-injective _ _ h) ∙ sym (append-nil got), refl, refl)
  receive_loop-exact (suc fuel) (suc n) got text w h =
      let r = ssl_recv_all P.tls (to_read n) w.conn in
      elim (Option-cases r.0) [
        | inl lost ↦ cc (h, receive_loop-stop P fuel n got w lost)
        | inr (piece, e) ↦
            let go_on = receive_loop-more P fuel n got w e in
            let (positive, fits, small) = to_read-fits n in
            let (len, came) = ssl_recv_all-exact P.tls S (to_read n) w.conn piece (omega arith) e in
            let (rest, whole, rest_len, rest_came) =
              receive_loop-exact fuel (suc n - to_read n) (got ++ piece) text
                (record w { conn = r.1 }) (ap (λ x. x.0) (sym go_on) ∙ h) in
            (
              piece ++ rest,
              whole ∙ append_assoc got piece rest,
              omega (arith, length-append piece rest),
              came
                  ∙ ap (λ b. piece ++ b) rest_came
                  ∙ sym (append_assoc piece rest _)
                  ∙ ap (λ x. (piece ++ rest) ++ S.incoming x.1.conn) (sym go_on),
            )
      ]

  -- When the file has been received it is exactly the next bytes of the text to come, as many as
  -- the announced size, or none if that is negative, and the rest is left.
  pub receive_file-exact :
      (filesize : ℤ) (text : Bytes) (w : World P)
      → (receive_file P filesize w).0 ≡ some text
      → (length text ≡ pos_part filesize)
        × (S.incoming w.conn ≡ text ++ S.incoming (receive_file P filesize w).1.conn)
  unfolding receive_file
  receive_file-exact filesize text w h =
      let (rest, whole, len, came) =
        receive_loop-exact (pos_part filesize + 1) (pos_part filesize) [] text w h in
      (rw whole len, rw whole came)

module _ (P : Platform) (S : IsStream P.tls) (K : KeepsComing P.tls S) where
  receive_loop-succeeds :
      (fuel n : ℕ) (got : Bytes) (w : World P)
      → n < fuel
      → n ≤ length (S.incoming w.conn)
      → (receive_loop P fuel n got w).0 ≢ none
  unfolding receive_loop
  receive_loop-succeeds zero n got w h there lost = absurd (omega arith)
  receive_loop-succeeds (suc fuel) zero got w h there lost = cc lost
  receive_loop-succeeds (suc fuel) (suc n) got w h there lost =
      let r = ssl_recv_all P.tls (to_read n) w.conn in
      let (positive, fits, small) = to_read-fits n in
      elim (Option-cases r.0) [
        | inl stop ↦
            ssl_recv_all-succeeds P.tls S K (to_read n) w.conn (omega arith) (omega arith) stop
        | inr (piece, e) ↦
            let (len, came) = ssl_recv_all-exact P.tls S (to_read n) w.conn piece (omega arith) e in
            let all = ap length came ∙ length-append piece _ in
            receive_loop-succeeds fuel (suc n - to_read n) (got ++ piece) (record w { conn = r.1 })
              (omega arith) (omega (arith, all, len))
              (ap (λ x. x.0) (sym (receive_loop-more P fuel n got w e)) ∙ lost)
      ]

  -- Where reads keep coming and the announced bytes are there, the file is received.
  pub receive_file-succeeds :
      (filesize : ℤ) (w : World P)
      → pos_part filesize ≤ length (S.incoming w.conn)
      → (receive_file P filesize w).0 ≢ none
  unfolding receive_file
  receive_file-succeeds filesize w there =
      receive_loop-succeeds (pos_part filesize + 1) (pos_part filesize) [] w (omega arith) there
