-- ===== src/Server/Reply.antt =====
-- The reply headers that the handlers of src/server/server.c send.
use daemon_file_hosting.Base.{ℕ, Bool, Bytes}
use daemon_file_hosting.Base.Int.{ℤ, pos}
use daemon_file_hosting.External.{Platform}
use daemon_file_hosting.World.{M}
use daemon_file_hosting.Protocol.{encode_response}
use daemon_file_hosting.Transfer.{ssl_send_all}

module _ (P : Platform) where
  -- `ssl_send_all(ssl, buf, len)`: whether it returned 0.
  unfoldable pub send : Bytes → M P Bool
  send buf w = let r = ssl_send_all P.tls buf w.conn in (r.0, record w { conn = r.1 })

  -- `ResponseHeader resp = { .status = status, .filesize = size }`, sent.
  unfoldable pub respond_with : ℕ → ℤ → M P Bool
  unfolding send
  respond_with status size = send (encode_response (record { status = status; filesize = size }))

  -- A reply with a status alone has size 0.
  unfoldable pub respond : ℕ → M P Bool
  unfolding respond_with
  respond status = respond_with status (pos 0)
