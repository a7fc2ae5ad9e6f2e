-- ===== src/Daemon/Lifecycle.antt =====
-- Start and end of the watcher: the PID file, the init functions, `cleanup_resources` and `main`
-- of src/main.c. Of the MongoDB client is kept whether its pointer is set and whether it is allocated;
-- a release of something that is not allocated or open is marked.
pub mod Release
use daemon_file_hosting.Base.{Bool, true, false, not, ◌||◌, List, if◌then◌else◌}
use daemon_file_hosting.Base.Int.{ℤ}
use daemon_file_hosting.External.{Platform}
use daemon_file_hosting.World.{World}
use daemon_file_hosting.Daemon.{Turn, Progress, running, stopped, broken, main_loop}

-- What PID_FILE holds; `fscanf` finds no number in an unreadable one.
pub data PidFile : Type 0 where
  missing unreadable : PidFile
  holds : ℤ → PidFile

pub record Held : Type 0 where
  pub pid_file : PidFile
  pub log_open : Bool
  pub g_mongo_client : Bool
  -- whether the client is allocated
  pub client_live : Bool
  pub inotify_fd : Bool
  pub wd : Bool
  pub bad_release : Bool

-- What the external calls of the start answer, in their order; `alive` is `kill(pid, 0) == 0`.
pub record Answers : Type 0 where
  pub alive : ℤ → Bool
  pub daemonized : Bool
  pub pid : ℤ
  pub log_opens : Bool
  pub pid_file_opens : Bool
  pub client_made : Bool
  pub ping_answers : Bool
  pub signals_set : Bool
  pub inotify_made : Bool
  pub watch_added : Bool
  -- `unlink(PID_FILE) == 0`
  pub unlinks : Bool

unfoldable pub is_daemon_running : Answers → Held → Bool
is_daemon_running a h = elim h.pid_file [
  | missing ↦ false
  | unreadable ↦ false
  | holds old_pid ↦ a.alive old_pid
]

-- It answers true, whether the file opens or not.
abbrev init_logging : Answers → Held → Held
init_logging a h = record h { log_open = a.log_opens }

unfoldable pub write_pid_file : Answers → Held → Bool × Held
write_pid_file a h =
    if not a.pid_file_opens then (false, h) else (true, record h { pid_file = holds a.pid })

-- `mongoc_client_destroy(g_mongo_client);`
abbrev destroy_client : Held → Held
destroy_client h = record h {
  client_live = false;
  bad_release = h.bad_release || not h.client_live;
}

-- `g_mongo_client = NULL;`
abbrev forget_client : Held → Held
forget_client h = record h { g_mongo_client = false }

unfoldable pub init_mongodb : Answers → Held → Bool × Held
init_mongodb a h =
    if not a.client_made
    then (false, record h { g_mongo_client = false })
    else if not a.ping_answers
    then (
      false,
      forget_client (destroy_client (record h { g_mongo_client = true; client_live = true })),
    )
    else (true, record h { g_mongo_client = true; client_live = true })

unfoldable pub cleanup_resources : Answers → Held → Held
cleanup_resources a h =
    let g : Held = if h.g_mongo_client then forget_client (destroy_client h) else h in
    record g { log_open = false; pid_file = (if a.unlinks then missing else g.pid_file) }

-- `close(inotify_fd)`
abbrev close_inotify : Held → Held
close_inotify h = record h { inotify_fd = false; bad_release = h.bad_release || not h.inotify_fd }

-- `inotify_rm_watch(inotify_fd, wd)`
abbrev remove_watch : Held → Held
remove_watch h = record h { wd = false; bad_release = h.bad_release || not h.wd }

pub data Exit : Type 0 where
  exit_success exit_failure still_running : Exit

abbrev fail_with : Answers → Held → Exit × Held
fail_with a h = (exit_failure, cleanup_resources a h)

-- After the loop: the same end, whether the flag or an error of `read` has ended it.
finish : Answers → Progress → Held → Exit × Held
finish a running h = (still_running, h)
finish a stopped h = (exit_success, cleanup_resources a (close_inotify (remove_watch h)))
finish a broken h = (exit_success, cleanup_resources a (close_inotify (remove_watch h)))

-- From `inotify_init1` on, given how the loop ends.
unfoldable pub watch : Answers → Progress → Held → Exit × Held
unfolding finish
watch a progress h =
    if not a.inotify_made
    then fail_with a h
    else (let h' : Held = record h { inotify_fd = true } in
        if not a.watch_added
        then fail_with a (close_inotify h')
        else finish a progress (record h' { wd = true }))

-- From the log on.
unfoldable pub start : Answers → Progress → Held → Exit × Held
start a progress h =
    let r = write_pid_file a (init_logging a h) in
    if not r.0
    then (exit_failure, r.1)
    else (let m = init_mongodb a r.1 in
        if not m.0
        then fail_with a m.1
        else if not a.signals_set
        then fail_with a m.1
        else watch a progress m.1)

module _ (P : Platform) where
  unfoldable pub main : Answers → List Turn → Held → World P → Exit × Held
  main a turns h w =
      if is_daemon_running a h
      then (exit_failure, h)
      else if not a.daemonized
      then (exit_failure, h)
      else start a (main_loop P turns w).0 h
