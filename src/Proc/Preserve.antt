-- ===== src/Proc/Preserve.antt =====
-- What each call that `append_proc_event` makes keeps, the whole of it keeps.
use daemon_file_hosting.Base.{◌+◌, inl, inr, Option, none, some, List, Bytes, Bool-cases, length}
use daemon_file_hosting.Bson.{Doc, nil}
use daemon_file_hosting.External.{Platform}
use daemon_file_hosting.World.{World, get_collection, insert_one, update_one, malloc}
use daemon_file_hosting.Path.{stem, extension}
use daemon_file_hosting.Proc.{
  insert_base, get_filename_without_extension, get_file_extension, create_base_document, set_event,
  append_proc_event, get_next_proc_key, scan_keys, proc_keys_of, by_id, base_doc, set_update,
}

-- A property of states that each of the calls keeps.
pub record IsKeptByCalls (P : Platform) (I : World P → Type 0) : Type 0 where
  pub by_collection : (w : World P) → I w → I (get_collection P w).1
  pub by_insertion : (id f e : Bytes) (w : World P) → I w → I (insert_one P (base_doc id f e) w).1
  pub by_update :
      (id path : Bytes) (event : Doc) (w : World P)
      → I w
      → I (update_one P (by_id id) (set_update path event) w).1
  pub by_malloc : (w : World P) (h : P.system.Heap) → I w → I (record w { heap = h })
  pub by_clock : (w : World P) (t : P.system.Time) → I w → I (record w { time = t })
  pub by_strtol :
      (keys : List Bytes) (w : World P)
      → I w
      → I (record w { errno = (scan_keys keys (P.mongo.errno_left w.db w.errno) 0).0 })

module _ (P : Platform) (I : World P → Type 0) (K : IsKeptByCalls P I) where
  pub get_next_proc_key-kept : (id : Bytes) (w : World P) → I w → I (get_next_proc_key P id w).1
  unfolding get_next_proc_key
  get_next_proc_key-kept id w h = elim (Bool-cases (P.mongo.get_collection w.db).0) [
    | inr down ↦ rw (down, get_next_proc_key) (K.by_collection w h)
    | inl up ↦
        let w1 = (get_collection P w).1 in
        let keys = proc_keys_of (P.mongo.find w1.db (by_id id) nil) in
        rw (up, get_next_proc_key) (K.by_malloc _ _ (K.by_strtol keys w1 (K.by_collection w h)))
  ]

  insert_base-kept :
      (id : Bytes) (f e : Option Bytes) (w : World P) → I w → I (insert_base P id f e w).1
  unfolding insert_base
  insert_base-kept id (some f) (some e) w h = K.by_insertion id f e w h
  insert_base-kept id (some f) none w h = h
  insert_base-kept id none e w h = h

  names-kept :
      (id : Bytes) (w : World P)
      → I w
      → I (get_file_extension P id (get_filename_without_extension P id w).1).1
  unfolding get_filename_without_extension get_file_extension
  names-kept id w h =
      let w1 = (malloc P (length (stem id) + 1) w).1 in
      K.by_malloc w1 (malloc P (length (extension id) + 1) w1).1.heap
        (K.by_malloc w (malloc P (length (stem id) + 1) w).1.heap h)

  create_base_document-kept : (id : Bytes) (w : World P) → I w → I (create_base_document P id w).1
  unfolding create_base_document
  create_base_document-kept id w h =
      let w1 = (get_collection P w).1 in
      let h1 = K.by_collection w h in
      elim (Bool-cases (P.mongo.get_collection w.db).0) [
        | inr down ↦ rw (down, create_base_document) h1
        | inl up ↦
            let f = get_filename_without_extension P id w1 in
            let e = get_file_extension P id f.1 in
            rw (up, create_base_document) (insert_base-kept id f.0 e.0 e.1 (names-kept id w1 h1))
      ]

  set_event-kept :
      (id change_type status : Bytes) (key : Option Bytes) (w : World P)
      → I w
      → I (set_event P id change_type status key w).1
  unfolding set_event
  set_event-kept id change_type status none w h = h
  set_event-kept id change_type status (some key) w h = K.by_update id _ _ _ (K.by_clock w _ h)

  pub append_proc_event-kept :
      (id change_type status : Bytes) (w : World P)
      → I w
      → I (append_proc_event P id change_type status w).1
  unfolding append_proc_event
  append_proc_event-kept id change_type status w h =
      let b = create_base_document P id w in
      let based = create_base_document-kept id w h in
      let w1 = (get_collection P b.1).1 in
      let connected = K.by_collection b.1 based in
      elim (Bool-cases b.0) [
        | inr failed ↦ rw (failed, append_proc_event) based
        | inl ok ↦ elim (Bool-cases (P.mongo.get_collection b.1.db).0) [
          | inr down ↦ rw (ok, down, append_proc_event) connected
          | inl up ↦
              let k = get_next_proc_key P id w1 in
              rw (ok, up, append_proc_event)
                (set_event-kept id change_type status k.0 k.1
                  (get_next_proc_key-kept id w1 connected))
        ]
      ]
