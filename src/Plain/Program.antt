-- ===== src/Plain/Program.antt =====
-- `list_files` and `main` of the older client, src/client/code.c.
use daemon_file_hosting.Base.{
  ℕ, zero, suc, ◌+◌, ◌-◌, ◌%◌, ◌^◌, Bool, true, false, not, List, [], ◌∷◌, ◌++◌, Option, none, some,
  Bytes, codes, bytes_eq, length, drop, ltb, ◌==◌, if◌then◌else◌,
}
use daemon_file_hosting.Base.Int.{ℤ, pos, negsuc, to_size}
use daemon_file_hosting.Protocol.{cmd_list, resp_success}
use daemon_file_hosting.Client.{LocalDisk, piece_size}
use daemon_file_hosting.Client.Program.{parse_options}
use daemon_file_hosting.Plain.{Sockets}
use daemon_file_hosting.Plain.Client.{encode_header, ask, given, upload_file, download_file}

module _ (K : Sockets) (L : LocalDisk) where
  abbrev pub Shown : Type 0
  Shown = K.Conn × Bytes

  -- The loop with `total` received; the list is printed as it comes.
  unfoldable pub list_loop : ℕ → ℕ → ℕ → Shown → Option Bool × Shown
  list_loop zero size total s = (none, s)
  list_loop (suc fuel) size total (c, out) = elim (ltb total size) [
    | false ↦ (some true, (c, out))
    | true ↦
        let r = K.recv c (piece_size (size - total)) in
        elim (given K L r.0) [
          | none ↦ (some false, (r.1, out))
          | some piece ↦ list_loop fuel size (total + length piece) (r.1, out ++ piece)
        ]
  ]

  unfoldable pub show_list : ℕ → ℤ → Shown → Option Bool × Shown
  unfolding list_loop
  show_list fuel (pos zero) s = (some true, s)
  show_list fuel (negsuc n) s = (some true, s)
  show_list fuel (pos (suc n)) s = list_loop fuel (suc n) 0 s

  -- The stack holds `junk` in the name behind its first byte.
  unfoldable pub list_files : ℕ → Bytes → Shown → Option Bool × Shown
  unfolding show_list
  list_files fuel junk (c, out) =
      let r = ask K L fuel (encode_header cmd_list (0 ∷ drop 1 junk) (pos 0)) c in
      elim r.0 [
        | none ↦ (none, (r.1, out))
        | some answer ↦ elim answer [
          | none ↦ (some false, (r.1, out))
          | some response ↦
              if response.status == resp_success
              then show_list fuel response.filesize (r.1, out)
              else (some false, (r.1, out))
        ]
      ]

  -- The calls that make the connection.
  pub record Network : Type 1 where
    pub Net : Type 0
    pub atoi : Bytes → ℤ
    pub socket : Net → Bool × Net
    pub inet_pton : Bytes → Bool
    pub connect : Net → Bytes → ℕ → Option K.Conn × Net
    pub close : Net → Net

  module _ (N : Network) where
    pub record Machine : Type 0 where
      pub net : N.Net
      pub files : L.Files
      pub out : Bytes

    abbrev pub closed : Machine → Machine
    closed m = record m { net = N.close m.net }

    unfoldable pub run_upload : ℕ → List Bytes → K.Conn → Machine → Option Bool × Machine
    run_upload fuel (path ∷ remote ∷ _) c m =
        ((upload_file K L fuel path remote m.files c).0, closed m)
    run_upload fuel _ c m = (some false, closed m)

    unfoldable pub run_download : ℕ → List Bytes → K.Conn → Machine → Option Bool × Machine
    run_download fuel (remote ∷ path ∷ _) c m =
        let r = download_file K L fuel remote path (c, m.files) in
        (r.0, closed (record m { files = r.1.1 }))
    run_download fuel _ c m = (some false, closed m)

    unfoldable pub run_list : ℕ → Bytes → K.Conn → Machine → Option Bool × Machine
    run_list fuel junk c m =
        let r = list_files fuel junk (c, m.out) in (r.0, closed (record m { out = r.1.1 }))

    unfoldable pub run_command :
        ℕ → Bytes → Bytes → List Bytes → K.Conn → Machine → Option Bool × Machine
    unfolding run_upload run_download run_list
    run_command fuel junk cmd_str rest c m =
        if bytes_eq cmd_str (codes "upload")
        then run_upload fuel rest c m
        else if bytes_eq cmd_str (codes "download")
        then run_download fuel rest c m
        else if bytes_eq cmd_str (codes "list")
        then run_list fuel junk c m
        else (some false, closed m)

    -- Whether the program exits with EXIT_SUCCESS; `none` while it has not ended.
    unfoldable pub main : ℕ → Bytes → List Bytes → Machine → Option Bool × Machine
    unfolding run_command
    main fuel junk [] m = (some false, m)
    main fuel junk (cmd_str ∷ rest) m =
        let target =
          parse_options N.atoi (cmd_str ∷ rest)
            (record { server_ip = codes "127.0.0.1"; port = pos 8080 }) in
        let sock = N.socket m.net in
        if not sock.0
        then (some false, record m { net = sock.1 })
        else if not (N.inet_pton target.server_ip)
        then (some false, closed (record m { net = sock.1 }))
        else (let met = N.connect sock.1 target.server_ip (to_size target.port % 2 ^ 16) in
            elim met.0 [
              | none ↦ (some false, closed (record m { net = met.1 }))
              | some c ↦ run_command fuel junk cmd_str rest c (record m { net = met.1 })
            ])
