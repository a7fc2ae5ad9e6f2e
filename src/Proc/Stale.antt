-- ===== src/Proc/Stale.antt =====
-- The test of `errno` in the loop over a proc map, when `errno` was not 0 before it.
use mathlib.Core.Option.{some-injective}
use daemon_file_hosting.Base.{
  ℕ, ◌+◌, ◌≡◌, ◌≢◌, refl, sym, ◌∙◌, ap, inl, inr, some, none, Bytes, codes, Bool, true, false,
  Bool-cases, if◌then◌else◌,
}
use daemon_file_hosting.Bson.{nil}
use daemon_file_hosting.External.{Platform}
use daemon_file_hosting.External.Laws.{LeavesErrors}
use daemon_file_hosting.World.{World}
use daemon_file_hosting.Path.{snprintf}
use daemon_file_hosting.Number.{print_int64}
use daemon_file_hosting.Proc.{
  append_proc_event, get_next_proc_key, scan_keys, proc_keys_of, by_id, max_key_length,
}
use daemon_file_hosting.Proc.Preserve.{IsKeptByCalls, append_proc_event-kept}
use daemon_file_hosting.Proc.Key.{scan_keys_stale, scan_keys-errno}

first_key : snprintf max_key_length (print_int64 (0 + 1)) ≡ codes "1"
unfolding print_int64
first_key = refl

kept_key :
    (room : Bool) (m : ℕ) (k : Bytes)
    → m ≡ 0
    → (if room then some (snprintf max_key_length (print_int64 (m + 1))) else none) ≡ some k
    → k ≡ codes "1"
kept_key false m k e t = cc
kept_key true m k e t =
    some-injective _ _ (sym t)
    ∙ ap (λ j. snprintf max_key_length (print_int64 (j + 1))) e
    ∙ first_key

module _ (P : Platform) where
  abbrev pub Stale : World P → Type 0
  Stale w = w.errno ≢ 0

module _ (P : Platform) (N : LeavesErrors P.mongo) where
  Stale-IsKeptByCalls : IsKeptByCalls P (Stale P)
  Stale-IsKeptByCalls = record {
    by_collection = λ w h. h;
    by_insertion = λ id f e w h. h;
    by_update = λ id path event w h. h;
    by_malloc = λ w heap h. h;
    by_clock = λ w t h. h;
    by_strtol = λ ks w h.
        scan_keys-errno ks (P.mongo.errno_left w.db w.errno) 0 (N.never_zero w.db w.errno h);
  }

  pub append_proc_event-Stale :
      (id change_type status : Bytes) (w : World P)
      → Stale P w
      → Stale P (append_proc_event P id change_type status w).1
  append_proc_event-Stale = append_proc_event-kept P (Stale P) Stale-IsKeptByCalls

  -- Where no call sets `errno` to 0, whatever the proc map holds, if `errno` was not 0 at the call, a key that is returned is
  -- "1".
  pub get_next_proc_key_stale :
      (id k : Bytes) (w : World P)
      → w.errno ≢ 0
      → (get_next_proc_key P id w).0 ≡ some k
      → k ≡ codes "1"
  unfolding get_next_proc_key
  get_next_proc_key_stale id k w stale t = elim (Bool-cases (P.mongo.get_collection w.db).0) [
    | inr down ↦ cc (rw (down, get_next_proc_key) at t)
    | inl up ↦
        let db = (P.mongo.get_collection w.db).1 in
        let docs = P.mongo.find db (by_id id) nil in
        let e = P.mongo.errno_left db w.errno in
        kept_key (P.system.malloc w.heap max_key_length).0 (scan_keys (proc_keys_of docs) e 0).1 k
          (scan_keys_stale (proc_keys_of docs) e 0 (N.never_zero db w.errno stale))
          (rw (up, get_next_proc_key) at t)
  ]
