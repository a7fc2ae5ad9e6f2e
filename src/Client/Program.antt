-- ===== src/Client/Program.antt =====
-- `main` of src/client/client.c: its arguments, the connection, and the command.
use daemon_file_hosting.Base.{
  ℕ, ◌%◌, ◌^◌, Bool, false, not, List, [], ◌∷◌, Option, none, some, Bytes, codes, bytes_eq,
  if◌then◌else◌,
}
use daemon_file_hosting.Base.Int.{ℤ, pos, to_size}
use daemon_file_hosting.External.{Tls, Blake3}
use daemon_file_hosting.Protocol.{RequestHeader}
use daemon_file_hosting.Client.{LocalDisk, upload_file_ssl, download_file_ssl}
use daemon_file_hosting.Client.Listing.{list_files_ssl}

pub record Target : Type 0 where
  pub server_ip : Bytes
  pub port : ℤ

abbrev pub default_target : Target
default_target = record { server_ip = codes "127.0.0.1"; port = pos 5151 }

-- The loop over the arguments: an option takes the argument behind it, if there is one. What
-- `atoi` makes of a text is a parameter.
unfoldable pub parse_options : (Bytes → ℤ) → List Bytes → Target → Target
parse_options atoi [] t = t
parse_options atoi (arg ∷ []) t = t
parse_options atoi (arg ∷ value ∷ rest) t =
    let skipped = parse_options atoi (value ∷ rest) t in
    let with_ip = parse_options atoi rest (record t { server_ip = value }) in
    let with_port = parse_options atoi rest (record t { port = atoi value }) in
    if bytes_eq arg (codes "--ip")
    then with_ip
    else if bytes_eq arg (codes "--port")
    then with_port
    else skipped

-- The calls that make the connection, over an unknown state, and the C library's `atoi`.
pub record Network (T : Tls) : Type 1 where
  pub Net : Type 0
  pub atoi : Bytes → ℤ
  pub socket : Net → Bool × Net
  pub inet_pton : Bytes → Bool
  pub connect : Net → Bytes → ℕ → Bool × Net
  pub close : Net → Net
  -- `SSL_CTX_new`, the CA's certificate, the client's certificate, its key
  pub ctx_new : Net → Bool × Net
  pub load_verify_locations : Net → Bool × Net
  pub use_certificate_file : Net → Bool × Net
  pub use_private_key_file : Net → Bool × Net
  pub ssl_new : Net → Option T.Conn × Net
  pub ssl_connect : T.Conn → Bool × T.Conn

module _ (T : Tls) (L : LocalDisk) (B : Blake3) (N : Network T) where
  -- The network, the client's files and the standard output.
  pub record Machine : Type 0 where
    pub net : N.Net
    pub files : L.Files
    pub out : Bytes

  -- Whether a context is made; if not, the program exits.
  unfoldable pub init_client_ssl_ctx : N.Net → Bool × N.Net
  init_client_ssl_ctx n =
      let made = N.ctx_new n in
      if not made.0
      then (false, made.1)
      else (let trusted = N.load_verify_locations made.1 in
          if not trusted.0
          then (false, trusted.1)
          else (let named = N.use_certificate_file trusted.1 in
              if not named.0 then (false, named.1) else N.use_private_key_file named.1))

  -- The third argument of an upload, if there is one.
  abbrev pub recipient_of : List Bytes → Bytes
  recipient_of [] = []
  recipient_of (recipient ∷ _) = recipient

  abbrev pub closed : Machine → Machine
  closed m = record m { net = N.close m.net }

  -- Whether the command's function returns 0, and the state after the connection is closed. An
  -- upload with too few arguments returns without closing it.
  unfoldable pub run_upload : RequestHeader → List Bytes → T.Conn → Machine → Bool × Machine
  run_upload junk (path ∷ remote ∷ more) c m =
      ((upload_file_ssl T L B junk path remote (recipient_of more) m.files c).0, closed m)
  run_upload junk _ c m = (false, m)

  unfoldable pub run_download : RequestHeader → List Bytes → T.Conn → Machine → Bool × Machine
  run_download junk (remote ∷ path ∷ _) c m =
      let r = download_file_ssl T L junk remote path (c, m.files) in
      (r.0, closed (record m { files = r.1.1 }))
  run_download junk _ c m = (false, closed m)

  unfoldable pub run_list : RequestHeader → T.Conn → Machine → Bool × Machine
  run_list junk c m =
      let r = list_files_ssl T L junk (c, m.out) in (r.0, closed (record m { out = r.1.1 }))

  unfoldable pub run_command :
      RequestHeader → Bytes → List Bytes → T.Conn → Machine → Bool × Machine
  unfolding run_upload run_download run_list
  run_command junk cmd_str rest c m =
      if bytes_eq cmd_str (codes "upload")
      then run_upload junk rest c m
      else if bytes_eq cmd_str (codes "download")
      then run_download junk rest c m
      else if bytes_eq cmd_str (codes "list")
      then run_list junk c m
      else (false, closed m)

  -- From the connected socket on.
  unfoldable pub talk : RequestHeader → Bytes → List Bytes → Machine → Bool × Machine
  unfolding init_client_ssl_ctx run_command
  talk junk cmd_str rest m =
      let ctx = init_client_ssl_ctx m.net in
      if not ctx.0
      then (false, record m { net = ctx.1 })
      else (let ssl = N.ssl_new ctx.1 in
          elim ssl.0 [
            | none ↦ (false, closed (record m { net = ssl.1 }))
            | some c ↦
                let hello = N.ssl_connect c in
                if not hello.0
                then (false, closed (record m { net = ssl.1 }))
                else run_command junk cmd_str rest hello.1 (record m { net = ssl.1 })
          ])

  -- Whether the program exits with EXIT_SUCCESS. The arguments are those behind the program's name.
  unfoldable pub main : RequestHeader → List Bytes → Machine → Bool × Machine
  unfolding talk parse_options
  main junk [] m = (false, m)
  main junk (cmd_str ∷ rest) m =
      let target = parse_options N.atoi (cmd_str ∷ rest) default_target in
      let sock = N.socket m.net in
      if not sock.0
      then (false, record m { net = sock.1 })
      else if not (N.inet_pton target.server_ip)
      then (false, closed (record m { net = sock.1 }))
      else (let met = N.connect sock.1 target.server_ip (to_size target.port % 2 ^ 16) in
          if not met.0
          then (false, closed (record m { net = met.1 }))
          else talk junk cmd_str rest (record m { net = met.1 }))
