-- ===== src/Server/Lifecycle.antt =====
-- Start and end of the server: the init functions, `cleanup_resources` and `main` of
-- src/server/server.c. Of a pointer is kept whether it is set, and whether its object is allocated;
-- a release of an object that is not allocated, or of a closed socket, is marked.
pub mod Release
use daemon_file_hosting.Base.{
  ℕ, zero, suc, ◌+◌, Bool, true, false, not, ◌||◌, List, [], ◌∷◌, Bytes, ◌==◌, if◌then◌else◌,
}
use daemon_file_hosting.Base.Int.{ℤ, pos, negsuc}
use daemon_file_hosting.World.{FileCrypto}

pub data LogFile : Type 0 where
  none_yet opened standard_error : LogFile

pub record Globals : Type 0 where
  pub g_log_file : LogFile
  pub g_ssl_ctx : Bool
  pub g_mongo_client : Bool
  pub g_collection : Bool
  -- whether the object of each of these pointers is allocated
  pub ctx_live : Bool
  pub client_live : Bool
  pub collection_live : Bool
  pub g_file_crypto : FileCrypto
  pub server_fd : Bool
  -- sockets of clients that are open, and threads that serve one
  pub client_fds : ℕ
  pub threads : ℕ
  pub bad_release : Bool

-- What the external calls of the start answer, in their order.
pub record Startup : Type 0 where
  pub log_opens : Bool
  pub signals_set : Bool
  pub ctx_made : Bool
  pub certificate_loads : Bool
  pub key_loads : Bool
  pub key_matches : Bool
  pub ca_loads : Bool
  pub client_made : Bool
  pub ping_answers : Bool
  pub collection_made : Bool
  -- the result of RAND_bytes, and the buffer after it
  pub random_result : ℤ
  pub random_key : Bytes
  pub directory_ready : Bool
  pub socket_made : Bool
  pub option_set : Bool
  pub bound : Bool
  pub listens : Bool

unfoldable pub init_logging : Startup → Globals → Globals
init_logging s g =
    if s.log_opens
    then record g { g_log_file = opened }
    else record g { g_log_file = standard_error }

unfoldable pub init_ssl : Startup → Globals → Bool × Globals
init_ssl s g =
    if not s.ctx_made
    then (false, record g { g_ssl_ctx = false })
    else (let g' : Globals = record g { g_ssl_ctx = true; ctx_live = true } in
        if not s.certificate_loads
        then (false, g')
        else if not s.key_loads
        then (false, g')
        else if not s.key_matches
        then (false, g')
        else if not s.ca_loads
        then (false, g')
        else (true, g'))

-- `mongoc_client_destroy(g_mongo_client);`
abbrev destroy_client : Globals → Globals
destroy_client g = record g {
  client_live = false;
  bad_release = g.bad_release || not g.client_live;
}

-- `g_mongo_client = NULL;`
abbrev forget_client : Globals → Globals
forget_client g = record g { g_mongo_client = false }

unfoldable pub init_mongodb : Startup → Globals → Bool × Globals
init_mongodb s g =
    if not s.client_made
    then (false, record g { g_mongo_client = false })
    else (let g' : Globals = record g { g_mongo_client = true; client_live = true } in
        if not s.ping_answers
        then (false, forget_client (destroy_client g'))
        else if not s.collection_made
        then (false, forget_client (destroy_client (record g' { g_collection = false })))
        else (true, record g' { g_collection = true; collection_live = true }))

-- The C test `!result`.
abbrev is_zero : ℤ → Bool
is_zero (pos n) = n == 0
is_zero (negsuc n) = false

-- The buffer is the key itself.
unfoldable pub init_cryptography : Startup → Globals → Bool × Globals
init_cryptography s g =
    let c = g.g_file_crypto in
    if is_zero s.random_result
    then (false, record g { g_file_crypto = record c { key = s.random_key } })
    else (true, record g { g_file_crypto = record { key = s.random_key; initialized = true } })

abbrev pub zeros : Bytes → Bytes
zeros [] = []
zeros (_ ∷ s) = 0 ∷ zeros s

-- Each part of `cleanup_resources`, in its order.
abbrev cleanup_ssl : Globals → Globals
cleanup_ssl g =
    if g.g_ssl_ctx
    then record g {
      g_ssl_ctx = false;
      ctx_live = false;
      bad_release = g.bad_release || not g.ctx_live;
    }
    else g

abbrev cleanup_collection : Globals → Globals
cleanup_collection g =
    if g.g_collection
    then record g {
      g_collection = false;
      collection_live = false;
      bad_release = g.bad_release || not g.collection_live;
    }
    else g

abbrev cleanup_client : Globals → Globals
cleanup_client g = if g.g_mongo_client then forget_client (destroy_client g) else g

abbrev cleanup_crypto : Globals → Globals
cleanup_crypto g =
    if g.g_file_crypto.initialized
    then record g {
      g_file_crypto = record { key = zeros g.g_file_crypto.key; initialized = false };
    }
    else g

abbrev close_log : LogFile → LogFile
close_log opened = none_yet
close_log other = other

unfoldable pub cleanup_resources : Globals → Globals
cleanup_resources g =
    let h = cleanup_crypto (cleanup_client (cleanup_collection (cleanup_ssl g))) in
    record h { g_log_file = close_log h.g_log_file }

-- One turn of the accept loop: no client; or a client for whom the allocation or the thread
-- fails, whose socket is closed; or a client with a thread of its own.
pub data Turn : Type 0 where
  no_client : Turn
  client : Bool → Bool → Turn

unfoldable pub accept_turn : Turn → Globals → Globals
accept_turn no_client g = g
accept_turn (client room started) g =
    let accepted : Globals = record g { client_fds = g.client_fds + 1 } in
    let closed : Globals = record accepted { client_fds = g.client_fds } in
    if not room
    then closed
    else if not started
    then closed
    else record accepted { threads = g.threads + 1 }

unfoldable pub accept_loop : List Turn → Globals → Globals
accept_loop [] g = g
accept_loop (t ∷ turns) g = accept_loop turns (accept_turn t g)

pub data Exit : Type 0 where
  exit_success exit_failure : Exit

abbrev fail_with : Globals → Exit × Globals
fail_with g = (exit_failure, cleanup_resources g)

-- `close(server_fd); cleanup_resources();`
abbrev close_socket : Globals → Globals
close_socket g = record g { server_fd = false; bad_release = g.bad_release || not g.server_fd }

-- From `socket` on; the turns are those until the shutdown flag is seen.
unfoldable pub listen_and_serve : Startup → List Turn → Globals → Exit × Globals
listen_and_serve s turns g =
    if not s.socket_made
    then fail_with g
    else (let g' : Globals = record g { server_fd = true } in
        if not s.option_set
        then fail_with (close_socket g')
        else if not s.bound
        then fail_with (close_socket g')
        else if not s.listens
        then fail_with (close_socket g')
        else (exit_success, cleanup_resources (close_socket (accept_loop turns g'))))

unfoldable pub start_crypto : Startup → List Turn → Globals → Exit × Globals
start_crypto s turns g =
    let r = init_cryptography s g in
    if not r.0
    then fail_with r.1
    else if not s.directory_ready
    then fail_with r.1
    else listen_and_serve s turns r.1

unfoldable pub start_mongodb : Startup → List Turn → Globals → Exit × Globals
start_mongodb s turns g =
    let r = init_mongodb s g in if not r.0 then fail_with r.1 else start_crypto s turns r.1

unfoldable pub main : Startup → List Turn → Globals → Exit × Globals
main s turns g =
    let logging = init_logging s g in
    if not s.signals_set
    then fail_with logging
    else (let r = init_ssl s logging in
        if not r.0 then fail_with r.1 else start_mongodb s turns r.1)
