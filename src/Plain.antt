-- ===== src/Plain.antt =====
-- `send_all` and `recv_all` over a plain socket, which src/utils/utils.c and src/client/code.c both
-- contain. A call that a signal interrupts is made again, as often as that happens, so the rounds
-- are fuel, and `none` says that it has run out.
pub mod Delivery
pub mod Client
pub mod Program
use daemon_file_hosting.Base.{
  ℕ, zero, suc, ◌-◌, Bool, true, false, [], ◌∷◌, ◌++◌, Option, none, some, Bytes, length, drop, ltb,
}

-- What `send` and `recv` return: a count, -1 with EINTR, or -1 with another error. `recv` gives no
-- bytes where the peer has closed the connection.
pub data Sent : Type 0 where
  wrote : ℕ → Sent
  send_interrupted : Sent
  send_failed : Sent

pub data Came : Type 0 where
  bytes : Bytes → Came
  recv_interrupted : Came
  recv_failed : Came

pub record Sockets : Type 1 where
  pub Conn : Type 0
  pub send : Conn → Bytes → Sent × Conn
  pub recv : Conn → ℕ → Came × Conn

module _ (K : Sockets) where
  -- What is left of the buffer, that is `buffer + total_sent`.
  unfoldable pub send_all : ℕ → Bytes → K.Conn → Option Bool × K.Conn
  send_all zero rest c = (none, c)
  send_all (suc fuel) [] c = (some true, c)
  send_all (suc fuel) (b ∷ rest) c =
      let r = K.send c (b ∷ rest) in
      elim r.0 [
        | wrote n ↦ send_all fuel (drop n (b ∷ rest)) r.1
        | send_interrupted ↦ send_all fuel (b ∷ rest) r.1
        | send_failed ↦ (some false, r.1)
      ]

  -- With `got` in the buffer: the bytes, or `some none` for -1.
  unfoldable pub recv_loop : ℕ → ℕ → Bytes → K.Conn → Option (Option Bytes) × K.Conn
  recv_loop zero len got c = (none, c)
  recv_loop (suc fuel) len got c = elim (ltb (length got) len) [
    | false ↦ (some (some got), c)
    | true ↦
        let r = K.recv c (len - length got) in
        elim r.0 [
          | bytes s ↦ elim s [
            | [] ↦ (some none, r.1)
            | b ∷ more ↦ recv_loop fuel len (got ++ (b ∷ more)) r.1
          ]
          | recv_interrupted ↦ recv_loop fuel len got r.1
          | recv_failed ↦ (some none, r.1)
        ]
  ]

  unfoldable pub recv_all : ℕ → ℕ → K.Conn → Option (Option Bytes) × K.Conn
  unfolding recv_loop
  recv_all fuel len c = recv_loop fuel len [] c
