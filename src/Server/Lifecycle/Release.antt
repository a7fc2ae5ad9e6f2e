-- ===== src/Server/Lifecycle/Release.antt =====
-- What the server holds when `main` returns.
use daemon_file_hosting.Base.{◌≡◌, Bool, true, false, List, [], ◌∷◌, arith, Bool-cases, inl, inr}
use daemon_file_hosting.Server.Lifecycle.{
  Globals, Startup, Turn, no_client, client, main, cleanup_resources, accept_turn, accept_loop,
  listen_and_serve, start_crypto, start_mongodb, init_cryptography, close_socket, init_ssl,
  init_mongodb, init_logging,
}

-- No object is allocated and no pointer is set, no key is left, and nothing was released that was
-- not allocated.
pub record IsReleased (g : Globals) : Type 0 where
  pub no_ctx : g.g_ssl_ctx ≡ false
  pub ctx_freed : g.ctx_live ≡ false
  pub no_client_left : g.g_mongo_client ≡ false
  pub client_freed : g.client_live ≡ false
  pub no_collection : g.g_collection ≡ false
  pub collection_freed : g.collection_live ≡ false
  pub no_socket : g.server_fd ≡ false
  pub no_crypto : g.g_file_crypto.initialized ≡ false
  pub sound : g.bad_release ≡ false

-- A pointer is set exactly while its object is allocated, the listening socket is open or not, and
-- nothing is marked.
record IsSound (is_open : Bool) (g : Globals) : Type 0 where
  ctx_owned : g.g_ssl_ctx ≡ g.ctx_live
  client_owned : g.g_mongo_client ≡ g.client_live
  collection_owned : g.g_collection ≡ g.collection_live
  socket : g.server_fd ≡ is_open
  unmarked : g.bad_release ≡ false

-- There is no MongoDB client yet.
record IsOffline (g : Globals) : Type 0 where
  sound : IsSound false g
  no_client_yet : g.client_live ≡ false
  no_collection_yet : g.collection_live ≡ false

IsReleased-IsSound : (g : Globals) → IsReleased g → IsSound false g
IsReleased-IsSound g c = ground arith

cleanup_resources-IsReleased : (g : Globals) → IsSound false g → IsReleased (cleanup_resources g)
unfolding cleanup_resources
cleanup_resources-IsReleased g c = ground arith

-- The accept loop changes only the two counters.
accept_turn-IsSound : (t : Turn) (g : Globals) → IsSound true g → IsSound true (accept_turn t g)
unfolding accept_turn
accept_turn-IsSound no_client g c = c
accept_turn-IsSound (client room started) g c = ground arith

accept_loop-IsSound :
    (turns : List Turn) (g : Globals) → IsSound true g → IsSound true (accept_loop turns g)
unfolding accept_loop
accept_loop-IsSound [] g c = c
accept_loop-IsSound (t ∷ turns) g c =
    accept_loop-IsSound turns (accept_turn t g) (accept_turn-IsSound t g c)

-- If as many sockets of clients are open as there are threads before the accept loop, so it is
-- after it: a client that gets no thread has had its socket closed.
pub accept_loop-owned :
    (turns : List Turn) (g : Globals)
    → g.client_fds ≡ g.threads
    → (accept_loop turns g).client_fds ≡ (accept_loop turns g).threads
unfolding accept_loop accept_turn
accept_loop-owned [] g h = h
accept_loop-owned (no_client ∷ turns) g h = accept_loop-owned turns g h
accept_loop-owned (client room started ∷ turns) g h =
    accept_loop-owned turns (accept_turn (client room started) g) (ground arith)

-- The socket is closed before everything else is released.
closing : (g : Globals) → IsSound true g → IsReleased (cleanup_resources (close_socket g))
closing g c = cleanup_resources-IsReleased (close_socket g) (ground arith)

listen_and_serve-IsReleased :
    (s : Startup) (turns : List Turn) (g : Globals)
    → IsSound false g
    → IsReleased (listen_and_serve s turns g).1
unfolding listen_and_serve
listen_and_serve-IsReleased s turns g c = elim (Bool-cases s.socket_made) [
  | inr e0 ↦ rw (e0, listen_and_serve) (cleanup_resources-IsReleased g c)
  | inl e0 ↦ elim (Bool-cases s.option_set) [
    | inr e1 ↦ rw (e0, e1, listen_and_serve) (closing g' c')
    | inl e1 ↦ elim (Bool-cases s.bound) [
      | inr e2 ↦ rw (e0, e1, e2, listen_and_serve) (closing g' c')
      | inl e2 ↦ elim (Bool-cases s.listens) [
        | inr e3 ↦ rw (e0, e1, e2, e3, listen_and_serve) (closing g' c')
        | inl e3 ↦
            rw (e0, e1, e2, e3, listen_and_serve)
              (closing (accept_loop turns g') (accept_loop-IsSound turns g' c'))
      ]
    ]
  ]
]
  where
    g' : Globals
    g' = record g { server_fd = true }

    c' : IsSound true g'
    c' = ground arith

init_ssl-IsOffline : (s : Startup) (g : Globals) → IsReleased g → IsOffline (init_ssl s g).1
unfolding init_ssl
init_ssl-IsOffline s g c = ground arith

init_mongodb-IsSound :
    (s : Startup) (g : Globals) → IsOffline g → IsSound false (init_mongodb s g).1
unfolding init_mongodb
init_mongodb-IsSound s g c = ground arith

init_cryptography-IsSound :
    (s : Startup) (g : Globals) → IsSound false g → IsSound false (init_cryptography s g).1
unfolding init_cryptography
init_cryptography-IsSound s g c = ground arith

init_logging-IsReleased : (s : Startup) (g : Globals) → IsReleased g → IsReleased (init_logging s g)
unfolding init_logging
init_logging-IsReleased s g c = ground arith

start_crypto-IsReleased :
    (s : Startup) (turns : List Turn) (g : Globals)
    → IsSound false g
    → IsReleased (start_crypto s turns g).1
unfolding start_crypto
start_crypto-IsReleased s turns g c = elim (Bool-cases (init_cryptography s g).0) [
  | inr e0 ↦ rw (e0, start_crypto) (cleanup_resources-IsReleased _ d)
  | inl e0 ↦ elim (Bool-cases s.directory_ready) [
    | inr e1 ↦ simp (e0, e1, start_crypto) (cleanup_resources-IsReleased _ d)
    | inl e1 ↦ simp (e0, e1, start_crypto) (listen_and_serve-IsReleased s turns _ d)
  ]
]
  where
    d : IsSound false (init_cryptography s g).1
    d = init_cryptography-IsSound s g c

start_mongodb-IsReleased :
    (s : Startup) (turns : List Turn) (g : Globals)
    → IsOffline g
    → IsReleased (start_mongodb s turns g).1
unfolding start_mongodb
start_mongodb-IsReleased s turns g c = elim (Bool-cases (init_mongodb s g).0) [
  | inr e ↦ rw (e, start_mongodb) (cleanup_resources-IsReleased _ (init_mongodb-IsSound s g c))
  | inl e ↦ rw (e, start_mongodb) (start_crypto-IsReleased s turns _ (init_mongodb-IsSound s g c))
]

-- If nothing is held at the start and nothing is marked, then whatever the calls of the start
-- answer and whoever connects, when `main` returns no TLS context, no MongoDB client and no
-- collection is allocated and none of their pointers is set, the listening socket is closed, the key
-- is no longer in use, and nothing was released twice or without having been made.
pub main-IsReleased :
    (s : Startup) (turns : List Turn) (g : Globals) → IsReleased g → IsReleased (main s turns g).1
unfolding main
main-IsReleased s turns g c = elim (Bool-cases s.signals_set) [
  | inr e0 ↦
      simp (e0, main) (cleanup_resources-IsReleased (init_logging s g) (IsReleased-IsSound _ d))
  | inl e0 ↦ elim (Bool-cases (init_ssl s (init_logging s g)).0) [
    | inr e1 ↦ simp (e0, e1, main) (cleanup_resources-IsReleased _ (o.sound))
    | inl e1 ↦ simp (e0, e1, main) (start_mongodb-IsReleased s turns _ o)
  ]
]
  where
    d : IsReleased (init_logging s g)
    d = init_logging-IsReleased s g c

    o : IsOffline (init_ssl s (init_logging s g)).1
    o = init_ssl-IsOffline s (init_logging s g) d
