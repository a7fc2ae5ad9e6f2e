-- ===== src/Tests/Watcher.antt =====
-- The watcher: events, the loop, and the end of `main`; and the end of the server's `main`.
use daemon_file_hosting.Base.{◌≡◌, ◌≢◌, refl, ◌∷◌, [], true, false, some, List, codes, arith}
use daemon_file_hosting.Base.Int.{pos}
use daemon_file_hosting.External.Laws.{LeavesErrors}
use daemon_file_hosting.World.{World}
use daemon_file_hosting.Number.{strtol, print_int64}
use daemon_file_hosting.Proc.{get_next_proc_key}
use daemon_file_hosting.Daemon.{events_of, Turn, shutdown, read_failed, running, main_loop, eagain}
use daemon_file_hosting.Daemon.Events.{
  Written, events_in, encode_all, AreEvents, events_of-encode_all,
}
use daemon_file_hosting.Daemon.Loop.{eagain_makes_first_key}
use daemon_file_hosting.Daemon.Lifecycle.{Held, Answers, unreadable}
use daemon_file_hosting.Daemon.Lifecycle.Release.{IsIdle, main-IsIdle}
use daemon_file_hosting.Server.Lifecycle.{
  Globals, Startup, none_yet, client, no_client, accept_loop,
}
use daemon_file_hosting.Server.Lifecycle.Release.{IsReleased, main-IsReleased, accept_loop-owned}
use daemon_file_hosting.Tests.Platform.{platform, copies}
use daemon_file_hosting.Tests.Store.{proc_mongo, world_of}
use daemon_file_hosting.Daemon.Lifecycle
use daemon_file_hosting.Server.Lifecycle as ServerLifecycle

-- "a.b" was closed after writing, and "c" was moved away.
abbrev two_events : Written
two_events =
    (1, 0, record { mask = 8; len = 16; name_field = 97 ∷ 46 ∷ 98 ∷ copies 13 0 })
    ∷ (1, 4711, record { mask = 64; len = 16; name_field = 99 ∷ copies 15 0 })
    ∷ []

two_events-AreEvents : AreEvents two_events
two_events-AreEvents = (
  record { mask_fits = omega arith; len_fits = omega arith; field_fits = refl },
  (record { mask_fits = omega arith; len_fits = omega arith; field_fits = refl }, tt),
)

events_of-encode_all_example : events_of 100 (encode_all two_events) ≡ events_in two_events
unfolding encode_all
events_of-encode_all_example =
    events_of-encode_all 100 two_events two_events-AreEvents (omega arith)

abbrev start : World (platform proc_mongo)
start = world_of proc_mongo (λ id. some (codes "1" ∷ codes "2" ∷ [])) []

abbrev turns : List Turn
turns = shutdown ∷ []

after_eagain :
    (get_next_proc_key
      (platform proc_mongo)
      (codes "a")
      (main_loop (platform proc_mongo) (read_failed eagain ∷ turns) start).1).0
    ≡ some (codes "1")
unfolding get_next_proc_key main_loop strtol print_int64
after_eagain = refl

leaves_errors : LeavesErrors (platform proc_mongo).mongo
leaves_errors = record { never_zero = λ db e n. n }

eagain_makes_first_key_example : codes "1" ≡ codes "1"
eagain_makes_first_key_example =
    eagain_makes_first_key (platform proc_mongo) leaves_errors turns start (codes "a") (codes "1")
      tt after_eagain

abbrev fresh : Held
fresh = record {
  pid_file = unreadable;
  log_open = false;
  g_mongo_client = false;
  client_live = false;
  inotify_fd = false;
  wd = false;
  bad_release = false;
}

abbrev all_well : Answers
all_well = record {
  alive = λ pid. false;
  daemonized = true;
  pid = pos 99;
  log_opens = true;
  pid_file_opens = true;
  client_made = true;
  ping_answers = true;
  signals_set = true;
  inotify_made = true;
  watch_added = true;
  unlinks = true;
}

fresh-IsIdle : IsIdle fresh
fresh-IsIdle = record {
  no_client = refl;
  client_freed = refl;
  no_inotify = refl;
  no_watch = refl;
  sound = refl;
}

loop_ends : (main_loop (platform proc_mongo) turns start).0 ≢ running
unfolding main_loop
loop_ends h = cc h

main-IsIdle_example : IsIdle (Lifecycle.main (platform proc_mongo) all_well turns fresh start).1
main-IsIdle_example =
    main-IsIdle (platform proc_mongo) all_well turns fresh start fresh-IsIdle loop_ends

abbrev nothing_held : Globals
nothing_held = record {
  g_log_file = none_yet;
  g_ssl_ctx = false;
  g_mongo_client = false;
  g_collection = false;
  ctx_live = false;
  client_live = false;
  collection_live = false;
  g_file_crypto = record { key = []; initialized = false };
  server_fd = false;
  client_fds = 0;
  threads = 0;
  bad_release = false;
}

abbrev port_taken : Startup
port_taken = record {
  log_opens = true;
  signals_set = true;
  ctx_made = true;
  certificate_loads = true;
  key_loads = true;
  key_matches = true;
  ca_loads = true;
  client_made = true;
  ping_answers = true;
  collection_made = true;
  random_result = pos 1;
  random_key = copies 32 9;
  directory_ready = true;
  socket_made = true;
  option_set = true;
  bound = false;
  listens = true;
}

nothing_held-IsReleased : IsReleased nothing_held
nothing_held-IsReleased = record {
  no_ctx = refl;
  ctx_freed = refl;
  no_client_left = refl;
  client_freed = refl;
  no_collection = refl;
  collection_freed = refl;
  no_socket = refl;
  no_crypto = refl;
  sound = refl;
}

main-IsReleased_example : IsReleased (ServerLifecycle.main port_taken [] nothing_held).1
main-IsReleased_example = main-IsReleased port_taken [] nothing_held nothing_held-IsReleased

accept_loop-owned_example :
    (accept_loop (client true true ∷ no_client ∷ client true false ∷ []) nothing_held).client_fds
    ≡ (accept_loop (client true true ∷ no_client ∷ client true false ∷ []) nothing_held).threads
accept_loop-owned_example =
    accept_loop-owned (client true true ∷ no_client ∷ client true false ∷ []) nothing_held refl
