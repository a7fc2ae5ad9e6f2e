-- ===== src/Transfer.antt =====
-- `ssl_send_all` and `ssl_recv_all` of src/server/server.c and src/client/client.c. Each round
-- that continues moves at least one byte, so as many rounds as there are bytes, and one more for
-- the final test, are enough fuel.
pub mod Sent
pub mod Received
pub mod Apart
use daemon_file_hosting.Base.{
  ℕ, zero, suc, ◌+◌, ◌-◌, Bool, true, false, [], ◌∷◌, ◌++◌, Option, none, some, Bytes, length, take,
  drop, ltb, if◌then◌else◌,
}
use daemon_file_hosting.Base.Int.{ℤ, pos, negsuc, size_to_int}
use daemon_file_hosting.External.{Tls}

-- How far a count that an `int` returns moves the cursor; `none` if it is not positive.
abbrev pub progress : ℤ → Option ℕ
progress (pos zero) = none
progress (pos (suc n)) = some (suc n)
progress (negsuc n) = none

-- What a read delivers; `none` if its count is not positive.
abbrev pub arrived : Option Bytes → Option Bytes
arrived none = none
arrived (some []) = none
arrived (some (b ∷ s)) = some (b ∷ s)

module _ (T : Tls) where
  -- The loop of `ssl_send_all` from `sent` on: whether it returns 0, and the connection after it.
  pub send_loop : ℕ → Bytes → ℕ → T.Conn → Bool × T.Conn
  send_loop zero buf sent c = (false, c)
  send_loop (suc fuel) buf sent c = elim (ltb sent (length buf)) [
    | false ↦ (true, c)
    | true ↦
        let r = T.ssl_write c (drop sent buf) (size_to_int (length buf - sent)) in
        elim (progress r.0) [ none ↦ (false, r.1) | some n ↦ send_loop fuel buf (sent + n) r.1 ]
  ]

  unfoldable pub ssl_send_all : Bytes → T.Conn → Bool × T.Conn
  unfolding send_loop
  ssl_send_all buf c = send_loop (length buf + 1) buf 0 c

  -- The loop of `ssl_recv_all` with `got` in the buffer: the bytes, or `none` for -1.
  unfoldable pub recv_loop : ℕ → ℕ → Bytes → T.Conn → Option Bytes × T.Conn
  recv_loop zero len got c = (none, c)
  recv_loop (suc fuel) len got c = elim (ltb (length got) len) [
    | false ↦ (some got, c)
    | true ↦
        let r = T.ssl_read c (size_to_int (len - length got)) in
        elim (arrived r.0) [ none ↦ (none, r.1) | some s ↦ recv_loop fuel len (got ++ s) r.1 ]
  ]

  unfoldable pub ssl_recv_all : ℕ → T.Conn → Option Bytes × T.Conn
  unfolding recv_loop
  ssl_recv_all len c = recv_loop (len + 1) len [] c
