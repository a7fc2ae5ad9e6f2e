-- ===== src/Exchange/Replies.antt =====
-- What the replies of the server's handlers put on the connection.
use daemon_file_hosting.Base.{ℕ, ◌^◌, ◌<◌, ◌≡◌, refl, ◌++◌, Bytes, length, arith}
use daemon_file_hosting.Base.Int.{ℤ}
use daemon_file_hosting.External.{Platform}
use daemon_file_hosting.External.Laws.{IsStream}
use daemon_file_hosting.World.{World}
use daemon_file_hosting.Protocol.{encode_response}
use daemon_file_hosting.Transfer.Apart.{ssl_send_all-whole}
use daemon_file_hosting.Transfer.Sent.{KeepsMoving, ssl_send_all-succeeds}
use daemon_file_hosting.Proc.{append_proc_event}
use daemon_file_hosting.Proc.Preserve.{append_proc_event-kept}
use daemon_file_hosting.Server.Reply.{send, respond_with}

module _ (P : Platform) (S : IsStream P.tls) (K : KeepsMoving P.tls) where
  abbrev pub sent_by : World P → Bytes
  sent_by w = S.sent w.conn

  pub send-sent :
      (buf : Bytes) (w : World P)
      → length buf < 2 ^ 31
      → sent_by (send P buf w).1 ≡ sent_by w ++ buf
  unfolding send
  send-sent buf w small =
      ssl_send_all-whole P.tls S buf w.conn small (ssl_send_all-succeeds P.tls K buf w.conn small)

  pub respond_with-sent :
      (status : ℕ) (size : ℤ) (w : World P)
      → sent_by (respond_with P status size w).1
        ≡ sent_by w ++ encode_response (record { status = status; filesize = size })
  unfolding respond_with encode_response
  respond_with-sent status size w =
      send-sent (encode_response (record { status = status; filesize = size })) w (omega arith)

  -- An event that is recorded sends nothing.
  pub append_proc_event-sent :
      (id change_type status : Bytes) (w : World P)
      → sent_by (append_proc_event P id change_type status w).1 ≡ sent_by w
  append_proc_event-sent id change_type status w =
      append_proc_event-kept P (λ v. sent_by v ≡ sent_by w)
        (record {
          by_collection = λ v q. q;
          by_insertion = λ i f e v q. q;
          by_update = λ i path event v q. q;
          by_malloc = λ v heap q. q;
          by_clock = λ v t q. q;
          by_strtol = λ keys v q. q;
        })
        id change_type status w refl
