-- ===== src/Transfer/Apart.antt =====
-- The two directions of a connection are apart; and a buffer reported as sent has gone out.
use daemon_file_hosting.Base.{
  ℕ, ◌-◌, ◌++◌, [], zero, suc, ◌+◌, ◌^◌, ◌<◌, take-all, arith, ◌≡◌, refl, ◌∙◌, ap, inl, inr, true,
  ◌++◌, Bytes, length, ltb, Bool-cases, Option-cases,
}
use daemon_file_hosting.External.{Tls}
use daemon_file_hosting.External.Laws.{IsStream}
use daemon_file_hosting.Base.Int.{size_to_int}
use daemon_file_hosting.Transfer.{
  arrived, recv_loop, ssl_recv_all, progress, send_loop, ssl_send_all,
}
use daemon_file_hosting.Transfer.Sent.{
  ssl_send_all-Delivered, round, send_loop-done, send_loop-stop, send_loop-more,
}

module _ (T : Tls) (S : IsStream T) where
  send_loop-incoming :
      (fuel : ℕ) (buf : Bytes) (at : ℕ) (c : T.Conn)
      → S.incoming (send_loop T fuel buf at c).1 ≡ S.incoming c
  unfolding send_loop
  send_loop-incoming zero buf at c = refl
  send_loop-incoming (suc fuel) buf at c = elim (Bool-cases (ltb at (length buf))) [
    | inr done ↦ ap (λ r. S.incoming r.1) (send_loop-done T fuel buf at c done)
    | inl again ↦ elim (Option-cases (progress (round T buf at c).0)) [
      | inl stop ↦
          ap (λ r. S.incoming r.1) (send_loop-stop T fuel buf at c again stop)
          ∙ S.write-incoming c _ _
      | inr (n, e) ↦
          ap (λ r. S.incoming r.1) (send_loop-more T fuel buf at c again e)
          ∙ send_loop-incoming fuel buf (at + n) _
          ∙ S.write-incoming c _ _
    ]
  ]

  pub ssl_send_all-incoming :
      (buf : Bytes) (c : T.Conn) → S.incoming (ssl_send_all T buf c).1 ≡ S.incoming c
  unfolding ssl_send_all
  ssl_send_all-incoming buf c = send_loop-incoming (length buf + 1) buf 0 c

  recv_loop-sent :
      (fuel len : ℕ) (got : Bytes) (c : T.Conn) → S.sent (recv_loop T fuel len got c).1 ≡ S.sent c
  unfolding recv_loop
  recv_loop-sent zero len got c = refl
  recv_loop-sent (suc fuel) len got c =
      let num = size_to_int (len - length got) in
      elim (Bool-cases (ltb (length got) len)) [
        | inr done ↦ rw (done, recv_loop) refl
        | inl again ↦ elim (Option-cases (arrived (T.ssl_read c num).0)) [
          | inl stop ↦ rw (again, stop, recv_loop) (S.read-sent c num)
          | inr (s, e) ↦
              rw (again, e, recv_loop)
                (recv_loop-sent fuel len (got ++ s) (T.ssl_read c num).1 ∙ S.read-sent c num)
        ]
      ]

  pub ssl_recv_all-sent : (len : ℕ) (c : T.Conn) → S.sent (ssl_recv_all T len c).1 ≡ S.sent c
  unfolding ssl_recv_all
  ssl_recv_all-sent len c = recv_loop-sent (len + 1) len [] c

  -- A buffer that is reported as sent has gone out whole.
  pub ssl_send_all-whole :
      (buf : Bytes) (c : T.Conn)
      → length buf < 2 ^ 31
      → (ssl_send_all T buf c).0 ≡ true
      → S.sent (ssl_send_all T buf c).1 ≡ S.sent c ++ buf
  ssl_send_all-whole buf c small t =
      let d = ssl_send_all-Delivered T S buf c small in
      d.carried ∙ ap (λ b. S.sent c ++ b) (take-all d.count buf (omega (arith, d.whole t)))
