-- ===== src/Daemon.antt =====
-- The watcher of src/main.c: inotify's events, their handlers, and the loop over them.
pub mod Events
pub mod Loop
pub mod Lifecycle
use Prim.Native.Nat.{bit_and}
use daemon_file_hosting.Base.{
  ℕ, zero, suc, ◌+◌, ◌-◌, ◌*◌, Bool, true, false, not, ◌||◌, List, [], ◌∷◌, ◌++◌, Option, none,
  some, Bytes, codes, c_string, length, take, drop, ltb, leb, ◌==◌, if◌then◌else◌,
}
use daemon_file_hosting.External.{Platform}
use daemon_file_hosting.World.{World, M, pure, ◌>>=◌, ◌>>◌}
use daemon_file_hosting.Protocol.{from_little_endian}
use daemon_file_hosting.Path.{path_max}
use daemon_file_hosting.Proc.{append_proc_event}

abbrev pub exchange_dir : Bytes
exchange_dir = codes "/home/just/mesh_proto/oxxyen_storage/file_dir/filetrade"

abbrev pub in_close_write : ℕ
in_close_write = 0x8

abbrev pub in_moved_from : ℕ
in_moved_from = 0x40

abbrev pub in_moved_to : ℕ
in_moved_to = 0x80

abbrev pub in_delete : ℕ
in_delete = 0x200

-- A `struct inotify_event`: the mask, the length of the name's field, and the field, which holds
-- the name and NULs. The watch and the cookie are not read.
pub record Event : Type 0 where
  pub mask : ℕ
  pub len : ℕ
  pub name_field : Bytes

-- `sizeof(struct inotify_event)`: four words of 32 bits.
abbrev pub event_size : ℕ
event_size = 16

abbrev pub event_at : Bytes → Event
event_at buffer = record {
  mask = from_little_endian (take 4 (drop 4 buffer));
  len = from_little_endian (take 4 (drop 12 buffer));
  name_field = take (from_little_endian (take 4 (drop 12 buffer))) (drop event_size buffer);
}

-- The loop over the buffer: `ptr += sizeof(struct inotify_event) + event->len`. Each round takes at
-- least 16 bytes, so as many rounds as there are bytes are enough.
unfoldable pub events_of : ℕ → Bytes → List Event
events_of zero buffer = []
events_of (suc fuel) [] = []
events_of (suc fuel) (b ∷ buffer) =
    let e = event_at (b ∷ buffer) in e ∷ events_of fuel (drop (event_size + e.len) (b ∷ buffer))

-- `mask & bits`
abbrev pub has : ℕ → ℕ → Bool
has mask bits = not (bit_and mask bits == 0)

-- "%s/%s" of the directory and the name.
abbrev pub full_path : Bytes → Bytes
full_path name = exchange_dir ++ (b'/' ∷ name)

-- What is done with an event.
pub data Reaction : Type 0 where
  ignored too_long : Reaction
  changed : Bytes → Bytes → Reaction
  deleted : Bytes → Reaction

unfoldable pub reaction : Event → Reaction
reaction e =
    let path = full_path (c_string e.name_field) in
    if not (ltb 0 e.len)
    then ignored
    else if leb path_max (length path)
    then too_long
    else if has e.mask (in_close_write + in_moved_to)
    then changed path (if has e.mask in_moved_to then codes "moved_to" else codes "modified")
    else if has e.mask (in_delete + in_moved_from)
    then deleted path
    else ignored

-- What one turn of the main loop meets: the shutdown flag, or a result of `read`.
pub data Turn : Type 0 where
  shutdown : Turn
  read_failed : ℕ → Turn
  read_bytes : Bytes → Turn

-- How far the loop has come when the turns are over.
pub data Progress : Type 0 where
  running stopped broken : Progress

abbrev pub eintr : ℕ
eintr = 4

abbrev pub eagain : ℕ
eagain = 11

abbrev is_true : Option Bool → Bool
is_true none = false
is_true (some b) = b

module _ (P : Platform) where
  unfoldable pub is_regular_file : Bytes → M P Bool
  is_regular_file path w = (is_true (P.disk.is_regular w.files path), w)

  unfoldable pub handle_file_event : Bytes → Bytes → M P (Unit {0})
  unfolding is_regular_file
  handle_file_event path event_type = do
    regular ← is_regular_file path
    if not regular
        then pure tt
        else do append_proc_event P path event_type (codes "success"); pure tt

  unfoldable pub handle_file_deleted : Bytes → M P (Unit {0})
  handle_file_deleted path = do append_proc_event P path (codes "deleted") (codes "n/a"); pure tt

  abbrev pub react : Reaction → M P (Unit {0})
  react ignored = pure tt
  react too_long = pure tt
  react (changed path event_type) = handle_file_event path event_type
  react (deleted path) = handle_file_deleted path

  unfoldable pub handle_events : List Event → M P (Unit {0})
  handle_events [] = pure tt
  handle_events (e ∷ events) = do react (reaction e); handle_events events

  -- A call of `read` that fails has set `errno`; one that succeeds leaves it.
  unfoldable pub main_loop : List Turn → M P Progress
  main_loop [] w = (running, w)
  main_loop (shutdown ∷ turns) w = (stopped, w)
  main_loop (read_failed code ∷ turns) w =
      let w' : World P = record w { errno = code } in
      let rest = main_loop turns w' in
      if code == eintr then rest else if code == eagain then rest else (broken, w')
  main_loop (read_bytes buffer ∷ turns) w =
      main_loop turns (handle_events (events_of (length buffer) buffer) w).1
