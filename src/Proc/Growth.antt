-- ===== src/Proc/Growth.antt =====
-- A proc map grows by one event at a time, under the keys "1", "2", "3" and so on.
use daemon_file_hosting.Base.{
  ℕ, suc, ◌+◌, ◌^◌, ◌<◌, ◌≡◌, ◌≢◌, refl, sym, ◌∙◌, ap, ◌⊎◌, inl, inr, Bool, true, false, ◌++◌,
  Option, none, some, Bytes, codes, take-all, arith, if◌then◌else◌, Bool-cases,
}
use mathlib.Core.Option.{some-injective}
use daemon_file_hosting.Bson.{nil}
use daemon_file_hosting.External.{Platform}
use daemon_file_hosting.External.Documents.{IsProcStore, keys_or_nil}
use daemon_file_hosting.World.{World}
use daemon_file_hosting.Path.{snprintf}
use daemon_file_hosting.Number.{print_int64}
use daemon_file_hosting.Number.RoundTrip.{length-print_int64}
use daemon_file_hosting.Proc.{
  get_next_proc_key, create_base_document, append_proc_event, set_event, scan_keys, max_key_length,
  set_path, proc_keys_of, by_id,
}
use daemon_file_hosting.Proc.Key.{
  numbers, scan_keys-numbers, next_key_is_new, numbers-InRange, contains,
}
use daemon_file_hosting.Proc.Based.{recorded, IsBased, create_base_document-IsBased}

-- Neither buffer cuts a key.
key_whole : (n : ℕ) → snprintf max_key_length (print_int64 n) ≡ print_int64 n
key_whole n = take-all 31 (print_int64 n) (omega (arith, length-print_int64 n))

set_path_whole : (n : ℕ) → set_path (print_int64 n) ≡ codes "proc." ++ print_int64 n
set_path_whole n = take-all 63 _ (omega (arith, length-print_int64 n))

-- The key after the maximum `n`, if there was room for it.
chosen :
    (room : Bool) (m n : ℕ) (k : Bytes)
    → m ≡ n
    → (if room then some (snprintf max_key_length (print_int64 (m + 1))) else none) ≡ some k
    → k ≡ print_int64 (suc n)
chosen false m n k e t = cc
chosen true m n k e t =
    let next : m + 1 ≡ suc n = omega arith in
    some-injective _ _ (sym t)
    ∙ ap (λ j. snprintf max_key_length (print_int64 j)) next
    ∙ key_whole (suc n)

-- "n + 1" is not among "1" to "n".
is_new : (n : ℕ) → suc n < 2 ^ 63 → contains (numbers n) (print_int64 (suc n)) ≡ false
is_new n small =
    let n_small : n < 2 ^ 63 = omega arith in
    let at : (scan_keys (numbers n) 0 0).1 + 1 ≡ suc n =
      ap (λ (r : ℕ × ℕ). r.1 + 1) (scan_keys-numbers n n_small) ∙ omega arith in
    ap (λ j. contains (numbers n) (print_int64 j)) (sym at)
    ∙ next_key_is_new (numbers n) (numbers-InRange n n_small) (omega arith)

module _ (P : Platform) (S : IsProcStore P.mongo)
    (Q : (db : P.mongo.Db) → P.mongo.errno_left db 0 ≡ 0) where
  -- What the loop over the keys of a map "1" to "n" gives.
  scanned :
      (id : Bytes) (n : ℕ) (w : World P)
      → n < 2 ^ 63
      → w.errno ≡ 0
      → recorded P S w id ≡ numbers n
      → scan_keys
          (proc_keys_of (P.mongo.find (P.mongo.get_collection w.db).1 (by_id id) nil))
          (P.mongo.errno_left (P.mongo.get_collection w.db).1 w.errno)
          0
        ≡ (0, n)
  scanned id n w small clean rec =
      let db = (P.mongo.get_collection w.db).1 in
      let found : proc_keys_of (P.mongo.find db (by_id id) nil) ≡ numbers n =
        S.find_by_id db id ∙ ap keys_or_nil (S.proc-get_collection w.db id) ∙ rec in
      ap (λ ks. scan_keys ks (P.mongo.errno_left db w.errno) 0) found
      ∙ ap (λ e. scan_keys (numbers n) e 0) (ap (P.mongo.errno_left db) clean ∙ Q db)
      ∙ scan_keys-numbers n small

  -- The key that is found, and what finding it leaves.
  record IsNextKey (id : Bytes) (n : ℕ) (w : World P) (r : Option Bytes × World P) : Type 0 where
    map_same : S.proc r.1.db id ≡ S.proc w.db id
    errno_zero : r.1.errno ≡ 0
    key : (k : Bytes) → r.0 ≡ some k → k ≡ print_int64 (suc n)

  get_next_proc_key-IsNextKey :
      (id : Bytes) (n : ℕ) (w : World P)
      → n < 2 ^ 63
      → w.errno ≡ 0
      → recorded P S w id ≡ numbers n
      → IsNextKey id n w (get_next_proc_key P id w)
  unfolding get_next_proc_key
  get_next_proc_key-IsNextKey id n w small clean rec =
      elim (Bool-cases (P.mongo.get_collection w.db).0) [
        | inr down ↦
            rw (down, get_next_proc_key)
              (record {
                map_same = S.proc-get_collection w.db id;
                errno_zero = clean;
                key = λ k t. cc;
              })
        | inl up ↦
            rw (up, get_next_proc_key)
              (record {
                map_same = S.proc-get_collection w.db id;
                errno_zero = ap (λ r. r.0) (scanned id n w small clean rec);
                key = λ k t. chosen _ _ n k (ap (λ r. r.1) (scanned id n w small clean rec)) t;
              })
      ]

  -- One event, on a document that is there.
  record IsEventSet (id : Bytes) (n : ℕ) (w : World P) (r : Bool × World P) : Type 0 where
    errno_same : r.1.errno ≡ w.errno
    added : r.0 ≡ true → S.proc r.1.db id ≡ some (numbers (suc n))
    kept : r.0 ≢ true → S.proc r.1.db id ≡ S.proc w.db id

  set_event-IsEventSet :
      (id change_type status : Bytes) (n : ℕ) (w : World P)
      → suc n < 2 ^ 63
      → S.proc w.db id ≡ some (numbers n)
      → IsEventSet id n w (set_event P id change_type status (some (print_int64 (suc n))) w)
  unfolding set_event numbers
  set_event-IsEventSet id change_type status n w small there =
      rw (set_path_whole (suc n), set_event)
        (record {
          errno_same = refl;
          added =
              λ t. S.update_ok w.db id (suc n) _ (numbers n) small there t ∙ rw (is_new n small);
          kept = S.update_failed w.db id _ _;
        })

  -- What one call of `append_proc_event` does to a map with the keys "1" to "n".
  abbrev IsGrown : Bytes → ℕ → Bool × World P → Type 0
  IsGrown id n r = (r.1.errno ≡ 0) × (recorded P S r.1 id ≡ numbers (if r.0 then suc n else n))

  -- The last part of `append_proc_event`, on the key that was found.
  set_event-IsGrown :
      (id change_type status : Bytes) (n : ℕ) (w : World P) (key : Option Bytes)
      → suc n < 2 ^ 63
      → w.errno ≡ 0
      → S.proc w.db id ≡ some (numbers n)
      → ((k : Bytes) → key ≡ some k → k ≡ print_int64 (suc n))
      → IsGrown id n (set_event P id change_type status key w)
  unfolding set_event
  set_event-IsGrown id change_type status n w none small clean there is_next =
      (clean, ap keys_or_nil there)
  set_event-IsGrown id change_type status n w (some k) small clean there is_next =
      rw (is_next k refl) (decide (Bool-cases (set_event P id change_type status next w).0))
    where
      next : Option Bytes
      next = some (print_int64 (suc n))

      b : IsEventSet id n w (set_event P id change_type status next w)
      b = set_event-IsEventSet id change_type status n w small there

      decide :
          ((set_event P id change_type status next w).0 ≡ true)
            ⊎ ((set_event P id change_type status next w).0 ≡ false)
          → IsGrown id n (set_event P id change_type status next w)
      decide (inl t) = (b.errno_same ∙ clean, ap keys_or_nil (b.added t) ∙ rw t)
      decide (inr f) = (b.errno_same ∙ clean, ap keys_or_nil (b.kept (λ t. cc) ∙ there) ∙ rw f)

  -- If a document's proc map holds the keys "1" to "n", or there is no document and n is 0, n + 1 is
  -- below 2 ^ 63, and `errno` is 0 and the
  -- driver leaves it so, then after a call the map holds "1" to "n + 1" if the call returned true, and is
  -- what it was if not; `errno` is still 0.
  pub append_proc_event_grows :
      (id change_type status : Bytes) (n : ℕ) (w : World P)
      → suc n < 2 ^ 63
      → w.errno ≡ 0
      → recorded P S w id ≡ numbers n
      → let r = append_proc_event P id change_type status w in
        (r.1.errno ≡ 0) × (recorded P S r.1 id ≡ numbers (if r.0 then suc n else n))
  unfolding append_proc_event
  append_proc_event_grows id change_type status n w small clean rec =
      based (Bool-cases (create_base_document P id w).0)
    where
      w1 : World P
      w1 = (create_base_document P id w).1

      b : IsBased P S id w (create_base_document P id w)
      b = create_base_document-IsBased P S id w

      w2 : World P
      w2 = record w1 { db = (P.mongo.get_collection w1.db).1 }

      clean1 : w1.errno ≡ 0
      clean1 = b.errno_same ∙ clean

      rec2 : S.proc w2.db id ≡ S.proc w1.db id
      rec2 = S.proc-get_collection w1.db id

      r3 : Option Bytes × World P
      r3 = get_next_proc_key P id w2

      keyed :
          (create_base_document P id w).0 ≡ true
          → IsGrown id n (set_event P id change_type status r3.0 r3.1)
      keyed t =
          let there = rec2 ∙ b.there t ∙ ap (λ ks. some ks) rec in
          let k = get_next_proc_key-IsNextKey id n w2 (omega arith) clean1 (ap keys_or_nil there) in
          set_event-IsGrown id change_type status n r3.1 r3.0 small k.errno_zero
            (k.map_same ∙ there) k.key

      based :
          ((create_base_document P id w).0 ≡ true) ⊎ ((create_base_document P id w).0 ≡ false)
          → IsGrown id n (append_proc_event P id change_type status w)
      based (inr f) = rw (f, append_proc_event) (clean1, b.same ∙ rec)
      based (inl t) = elim (Bool-cases (P.mongo.get_collection w1.db).0) [
        | inr down ↦ rw (t, down, append_proc_event) (clean1, ap keys_or_nil rec2 ∙ b.same ∙ rec)
        | inl up ↦ rw (t, up, append_proc_event) (keyed t)
      ]
