-- ===== src/Daemon/Loop.antt =====
-- What `errno` does to the main loop: a failed `read` is not cleared before the keys are read.
use daemon_file_hosting.Base.{
  ◌≡◌, ◌≢◌, List, [], ◌∷◌, some, Bytes, codes, length, inl, inr, Bool-cases, arith,
}
use daemon_file_hosting.External.{Platform}
use daemon_file_hosting.External.Laws.{LeavesErrors}
use daemon_file_hosting.World.{World}
use daemon_file_hosting.Proc.{get_next_proc_key}
use daemon_file_hosting.Proc.Stale.{Stale, append_proc_event-Stale, get_next_proc_key_stale}
use daemon_file_hosting.Daemon.{
  Reaction, ignored, too_long, changed, deleted, reaction, react, handle_file_event,
  handle_file_deleted, is_regular_file, handle_events, events_of, Event, Turn, shutdown,
  read_failed, read_bytes, main_loop, eagain,
}

-- `read` that fails has set `errno` to something else than 0.
abbrev pub FailuresSet : List Turn → Type 0
FailuresSet [] = Unit {0}
FailuresSet (read_failed code ∷ turns) = (code ≢ 0) × FailuresSet turns
FailuresSet (_ ∷ turns) = FailuresSet turns

module _ (P : Platform) (N : LeavesErrors P.mongo) where
  handle_file_event-Stale :
      (path kind : Bytes) (w : World P) → Stale P w → Stale P (handle_file_event P path kind w).1
  unfolding handle_file_event is_regular_file
  handle_file_event-Stale path kind w h = elim (Bool-cases (is_regular_file P path w).0) [
    | inl e ↦
        rw (e, handle_file_event) (append_proc_event-Stale P N path kind (codes "success") w h)
    | inr e ↦ rw (e, handle_file_event) h
  ]

  react-Stale : (r : Reaction) (w : World P) → Stale P w → Stale P (react P r w).1
  unfolding handle_file_deleted
  react-Stale ignored w h = h
  react-Stale too_long w h = h
  react-Stale (changed path kind) w h = handle_file_event-Stale path kind w h
  react-Stale (deleted path) w h =
      append_proc_event-Stale P N path (codes "deleted") (codes "n/a") w h

  handle_events-Stale :
      (events : List Event) (w : World P) → Stale P w → Stale P (handle_events P events w).1
  unfolding handle_events
  handle_events-Stale [] w h = h
  handle_events-Stale (e ∷ events) w h =
      handle_events-Stale events (react P (reaction e) w).1 (react-Stale (reaction e) w h)

  main_loop-Stale :
      (turns : List Turn) (w : World P)
      → FailuresSet turns
      → Stale P w
      → Stale P (main_loop P turns w).1
  unfolding main_loop
  main_loop-Stale [] w f h = h
  main_loop-Stale (shutdown ∷ turns) w f h = h
  main_loop-Stale (read_bytes buffer ∷ turns) w f h =
      main_loop-Stale turns _ f (handle_events-Stale (events_of (length buffer) buffer) w h)
  main_loop-Stale (read_failed code ∷ turns) w (c, f) h =
      let rest = main_loop-Stale turns (record w { errno = code }) f c in ground arith

  -- Where no call sets `errno` to 0, once the loop has found nothing to read, whatever comes later, as long as a `read` that fails
  -- sets `errno`, and however full a proc map is, the next key, if there is one, is "1".
  pub eagain_makes_first_key :
      (turns : List Turn) (w : World P) (id k : Bytes)
      → FailuresSet turns
      → (get_next_proc_key P id (main_loop P (read_failed eagain ∷ turns) w).1).0 ≡ some k
      → k ≡ codes "1"
  unfolding main_loop
  eagain_makes_first_key turns w id k f t =
      get_next_proc_key_stale P N id k (main_loop P (read_failed eagain ∷ turns) w).1
        (main_loop-Stale turns (record w { errno = eagain }) f (omega arith)) t
