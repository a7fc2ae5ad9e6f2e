-- ===== src/Tests/Records.antt =====
-- The proc maps, over the small database.
use daemon_file_hosting.Base.{◌+◌, ◌≡◌, refl, ◌∷◌, [], false, some, List, Bytes, codes, arith}
use daemon_file_hosting.World.{World}
use daemon_file_hosting.Number.{strtol, print_int64}
use daemon_file_hosting.Proc.{scan_keys, get_next_proc_key}
use daemon_file_hosting.Proc.Key.{contains, numbers, next_key_is_new}
use daemon_file_hosting.Proc.Based.{recorded}
use daemon_file_hosting.Tests.Platform.{platform}
use daemon_file_hosting.Tests.Store.{Db, proc_mongo, proc_IsProcStore, world_of}

abbrev some_keys : List Bytes
some_keys = codes "1" ∷ codes "7" ∷ codes "x" ∷ []

next_key_is_new_example : contains some_keys (print_int64 ((scan_keys some_keys 0 0).1 + 1)) ≡ false
unfolding scan_keys strtol
next_key_is_new_example = next_key_is_new some_keys (refl, (refl, (refl, tt))) (omega arith)

abbrev path : Bytes
path = codes "/x/a.txt"

-- One document, with two events.
abbrev two_events : Db
two_events id = some (codes "1" ∷ codes "2" ∷ [])

abbrev before : World (platform proc_mongo)
before = world_of proc_mongo two_events []

two_recorded : recorded (platform proc_mongo) proc_IsProcStore before path ≡ numbers 2
unfolding proc_IsProcStore numbers print_int64
two_recorded = refl

abbrev stale : World (platform proc_mongo)
stale = record before { errno = 11 }

stale_key : (get_next_proc_key (platform proc_mongo) path stale).0 ≡ some (codes "1")
unfolding get_next_proc_key print_int64 strtol
stale_key = refl
