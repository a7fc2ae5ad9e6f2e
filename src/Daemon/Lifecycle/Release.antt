-- ===== src/Daemon/Lifecycle/Release.antt =====
-- What the watcher holds when `main` returns.
use daemon_file_hosting.Base.{◌≡◌, ◌≢◌, refl, true, false, List, inl, inr, Bool-cases, arith}
use daemon_file_hosting.External.{Platform}
use daemon_file_hosting.World.{World}
use daemon_file_hosting.Daemon.{Turn, Progress, running, stopped, broken, main_loop}
use daemon_file_hosting.Daemon.Lifecycle.{
  Held, Answers, is_daemon_running, init_logging, write_pid_file, init_mongodb, cleanup_resources,
  finish, watch, start, main,
}

-- Nothing is held but the log and the PID file, no pointer dangles, and nothing was released that
-- was not held.
pub record IsIdle (h : Held) : Type 0 where
  pub no_client : h.g_mongo_client ≡ false
  pub client_freed : h.client_live ≡ false
  pub no_inotify : h.inotify_fd ≡ false
  pub no_watch : h.wd ≡ false
  pub sound : h.bad_release ≡ false

write_pid_file-IsIdle :
    (a : Answers) (h : Held) → IsIdle h → IsIdle (write_pid_file a (init_logging a h)).1
unfolding write_pid_file
write_pid_file-IsIdle a h i = ground arith

-- Only the client may be held beside them, and its pointer is set if it is.
record IsStarted (h : Held) : Type 0 where
  client_owned : h.g_mongo_client ≡ h.client_live
  no_inotify : h.inotify_fd ≡ false
  no_watch : h.wd ≡ false
  sound : h.bad_release ≡ false

init_mongodb-IsStarted : (a : Answers) (h : Held) → IsIdle h → IsStarted (init_mongodb a h).1
unfolding init_mongodb
init_mongodb-IsStarted a h i = ground arith

cleanup_resources-IsIdle : (a : Answers) (h : Held) → IsStarted h → IsIdle (cleanup_resources a h)
unfolding cleanup_resources
cleanup_resources-IsIdle a h s = ground arith

finish-IsIdle :
    (a : Answers) (p : Progress) (h : Held)
    → IsStarted h
    → p ≢ running
    → IsIdle (finish a p (record h { inotify_fd = true; wd = true })).1
unfolding finish
finish-IsIdle a running h s ended = absurd (ended refl)
finish-IsIdle a stopped h s ended = cleanup_resources-IsIdle a _ (ground arith)
finish-IsIdle a broken h s ended = cleanup_resources-IsIdle a _ (ground arith)

watch-IsIdle :
    (a : Answers) (p : Progress) (h : Held) → IsStarted h → p ≢ running → IsIdle (watch a p h).1
unfolding watch
watch-IsIdle a p h s ended = elim (Bool-cases a.inotify_made) [
  | inr e ↦ simp (e, watch) (cleanup_resources-IsIdle a h s)
  | inl e ↦ elim (Bool-cases a.watch_added) [
    | inr f ↦ simp (e, f, watch) (cleanup_resources-IsIdle a _ (ground arith))
    | inl f ↦ simp (e, f, watch) (finish-IsIdle a p h s ended)
  ]
]

start-IsIdle :
    (a : Answers) (p : Progress) (h : Held) → IsIdle h → p ≢ running → IsIdle (start a p h).1
unfolding start
start-IsIdle a p h i ended =
    let r = write_pid_file a (init_logging a h) in
    let written : IsIdle r.1 = write_pid_file-IsIdle a h i in
    let started : IsStarted (init_mongodb a r.1).1 = init_mongodb-IsStarted a r.1 written in
    elim (Bool-cases r.0) [
      | inr e ↦ rw (e, start) written
      | inl e ↦ elim (Bool-cases (init_mongodb a r.1).0) [
        | inr f ↦ rw (e, f, start) (cleanup_resources-IsIdle a _ started)
        | inl f ↦ elim (Bool-cases a.signals_set) [
          | inr g ↦ simp (e, f, g, start) (cleanup_resources-IsIdle a _ started)
          | inl g ↦ simp (e, f, g, start) (watch-IsIdle a p _ started ended)
        ]
      ]
    ]

module _ (P : Platform) where
  -- If the watcher holds no client, descriptor or watch at its start and nothing is marked, then
  -- whatever the calls of the start answer, when `main` returns, which it does unless the turns
  -- are over before the loop is, the client is freed and its pointer is cleared, the descriptor and
  -- the watch are closed, and nothing was released twice or without having been made.
  pub main-IsIdle :
      (a : Answers) (turns : List Turn) (h : Held) (w : World P)
      → IsIdle h
      → (main_loop P turns w).0 ≢ running
      → IsIdle (main P a turns h w).1
  unfolding main
  main-IsIdle a turns h w i ended = elim (Bool-cases (is_daemon_running a h)) [
    | inl e ↦ rw (e, main) i
    | inr e ↦ elim (Bool-cases a.daemonized) [
      | inr f ↦ rw (e, f, main) i
      | inl f ↦ simp (e, f, main) (start-IsIdle a (main_loop P turns w).0 h i ended)
    ]
  ]
