-- ===== src/Server/Store/Uploads/Files.antt =====
-- The file, the document and the event of an upload, from the ciphertext on.
use daemon_file_hosting.Base.{
  ◌^◌, ◌<◌, ◌≡◌, ◌≢◌, refl, sym, ◌∙◌, ap, ◌⊎◌, inl, inr, none, some, [], ◌∷◌, ◌++◌, Bytes, bytes_eq,
  Bool-cases, c_string, codes, length, if◌then◌else◌,
}
use daemon_file_hosting.External.{Platform, Inserted, inserted, refused}
use daemon_file_hosting.External.Laws.{IsGcm, IsFileStore}
use daemon_file_hosting.World.{World}
use daemon_file_hosting.Protocol.{RequestHeader, resp_success, resp_error}
use daemon_file_hosting.Path.{storage_path}
use daemon_file_hosting.Cipher.{Sealed}
use daemon_file_hosting.Cipher.RoundTrip.{IsSealed}
use daemon_file_hosting.Proc.{append_proc_event}
use daemon_file_hosting.Server.Upload.{metadata, write_file, store_upload, record_upload, conclude}
use daemon_file_hosting.Server.Upload.Stored.{write_file-contents}
use daemon_file_hosting.Server.Download.Held.{IsSealedAt}
use daemon_file_hosting.Server.Store.{Item, Shelf, put, IsName, Refines}
use daemon_file_hosting.Server.Store.Laws.{IsDocStore, KeepsOthers, ClosesFiles}
use daemon_file_hosting.Server.Store.Quiet.{
  IsQuietOn, Everywhere, quiet_trans, respond-quiet, append_proc_event-quiet, Refines-quiet,
  sealed-same,
}
use daemon_file_hosting.Server.Store.Uploads.{OtherPath, other_path, IsPut, put-Refines}

module _ (P : Platform) (F : IsFileStore P.disk) (D : IsDocStore P.mongo)
    (K : KeepsOthers P.disk F) where
  -- `write_file` touches no other path, whether it succeeds or not.
  write_file-others :
      (path text other : Bytes) (w : World P)
      → path ≢ other
      → F.contents (write_file P path text w).1.files other ≡ F.contents w.files other
  unfolding write_file
  write_file-others path text other w differ =
      let o = P.disk.fopen_write w.files path in
      let opened = K.open_other w.files path other differ in
      elim (Bool-cases o.0) [
        | inr closed ↦ rw (closed, write_file) opened
        | inl is_open ↦
            rw (is_open, write_file)
              (K.close_other (P.disk.fwrite o.1 path text).1 path other differ
                ∙ K.write_other o.1 path text other differ
                ∙ opened)
      ]

  write_file-rest :
      (path text : Bytes) (w : World P)
      → ((write_file P path text w).1.db ≡ w.db)
        × ((write_file P path text w).1.g_file_crypto ≡ w.g_file_crypto)
  unfolding write_file
  write_file-rest path text w = elim (Bool-cases (P.disk.fopen_write w.files path).0) [
    | inr closed ↦ rw (closed, write_file) (refl, refl)
    | inl is_open ↦ rw (is_open, write_file) (refl, refl)
  ]

  pub write_file-quiet :
      (name text : Bytes) (w : World P)
      → IsQuietOn P F D (OtherPath name) w (write_file P (storage_path name) text w).1
  write_file-quiet name text w =
      let (d, g) = write_file-rest (storage_path name) text w in
      record {
        docs_same = λ other. ap (λ b. D.named b other) d;
        key_same = ap (λ c. c.key) g;
        contents_same = λ path differ. write_file-others (storage_path name) text path w differ;
      }

module _ (P : Platform) (G : IsGcm P.evp) (F : IsFileStore P.disk) (D : IsDocStore P.mongo) where
  -- The shelf after an upload of a name for an owner: what it was, or with the text put on it.
  abbrev pub Uploaded : Bytes → Item → Shelf → World P → Type 0
  Uploaded name item shelf w = Refines P G F D w shelf ⊎ Refines P G F D w (put name item shelf)

  -- A step that is quiet on the other names keeps the shelf, if the name is free.
  pub quiet-Refines :
      (name : Bytes) (shelf : Shelf) (w u : World P)
      → IsName name
      → shelf name ≡ none
      → Refines P G F D w shelf
      → IsQuietOn P F D (OtherPath name) w u
      → Refines P G F D u shelf
  quiet-Refines name shelf w u n free r q =
      Refines-quiet P G F D (OtherPath name) shelf w u q
        (λ other that m e. other_path shelf name other that n m free e) r

  -- From a state whose file of the name is written: the document decides.
  conclude-Uploaded :
      (req : RequestHeader) (owner iv text : Bytes) (sealed : Sealed) (shelf : Shelf)
      (w v : World P) (t : P.system.Time) (result : Inserted)
      → IsName (c_string req.filename)
      → shelf (c_string req.filename) ≡ none
      → Refines P G F D w shelf
      → IsQuietOn P F D (OtherPath (c_string req.filename)) w v
      → IsSealedAt P G F (storage_path (c_string req.filename)) iv sealed.tag text v
      → let i =
          P.mongo.insert_one v.db
            (metadata (c_string req.filename) req.filesize iv sealed.tag owner) in
        i.0 ≡ result
        → Uploaded
            (c_string req.filename)
            (record { owner = owner; text = text })
            shelf
            (conclude P req result (record v { db = i.1; time = t })).1
  conclude-Uploaded req owner iv text sealed shelf w v t (refused code) n free r q s e =
      let name = c_string req.filename in
      let doc = metadata name req.filesize iv sealed.tag owner in
      let v1 : World P = record v { db = (P.mongo.insert_one v.db doc).1; time = t } in
      let step : IsQuietOn P F D (OtherPath name) v v1 = record {
        docs_same = λ other. D.named-refused v.db doc code other e;
        key_same = refl;
        contents_same = λ path c. refl;
      } in
      inl (
        quiet-Refines name shelf w _ n free r (
          quiet_trans P F D (OtherPath name) w v _ q (
            quiet_trans P F D (OtherPath name) v v1 _ step
              (respond-quiet P F D (OtherPath name) resp_error v1))))
  conclude-Uploaded req owner iv text sealed shelf w v t inserted n free r q s e =
      let name = c_string req.filename in
      let item : Item = record { owner = owner; text = text } in
      let doc = metadata name req.filesize iv sealed.tag owner in
      let v1 : World P = record v { db = (P.mongo.insert_one v.db doc).1; time = t } in
      let there : IsPut P G F D name item w v1 = record {
        size = req.filesize;
        iv = iv;
        tag = sealed.tag;
        named_put = λ other.
            D.named-insert v.db name other iv sealed.tag owner req.filesize e
            ∙ ap (λ l. if bytes_eq other name then l ++ (doc ∷ []) else l) (q.docs_same other);
        key_same = q.key_same;
        contents_same = q.contents_same;
        sealed_at = sealed-same P G F D (storage_path name) iv sealed.tag text v v1 refl refl s;
      } in
      let u1 = (append_proc_event P (storage_path name) (codes "upload") (codes "success") v1).1 in
      inr (
        Refines-quiet P G F D (Everywhere P F D) (put name item shelf) v1 _
          (quiet_trans P F D (Everywhere P F D) v1 u1 _
            (append_proc_event-quiet P F D (Everywhere P F D) (storage_path name) (codes "upload")
              (codes "success") v1)
            (respond-quiet P F D (Everywhere P F D) resp_success u1))
          (λ other that m k. tt) (put-Refines P G F D name item shelf w v1 n free there r))

  pub record_upload-Uploaded :
      (req : RequestHeader) (owner iv text : Bytes) (sealed : Sealed) (shelf : Shelf)
      (w v : World P)
      → IsName (c_string req.filename)
      → shelf (c_string req.filename) ≡ none
      → Refines P G F D w shelf
      → IsQuietOn P F D (OtherPath (c_string req.filename)) w v
      → IsSealedAt P G F (storage_path (c_string req.filename)) iv sealed.tag text v
      → Uploaded
          (c_string req.filename)
          (record { owner = owner; text = text })
          shelf
          (record_upload P req owner iv sealed v).1
  unfolding record_upload
  record_upload-Uploaded req owner iv text sealed shelf w v n free r q s =
      conclude-Uploaded req owner iv text sealed shelf w v (P.system.monotonic v.time).1 _ n free r
        q s refl

  -- From the result of the encryption on.
  pub store_upload-Uploaded :
      (K : KeepsOthers P.disk F) (C : ClosesFiles P.disk) (req : RequestHeader)
      (owner iv text : Bytes) (sealed : Sealed) (shelf : Shelf) (w v : World P)
      → IsName (c_string req.filename)
      → shelf (c_string req.filename) ≡ none
      → length text < 2 ^ 31
      → length iv ≡ 12
      → Refines P G F D w shelf
      → IsQuietOn P F D (OtherPath (c_string req.filename)) w v
      → IsSealed P.evp G v.g_file_crypto.key iv text sealed
      → Uploaded
          (c_string req.filename)
          (record { owner = owner; text = text })
          shelf
          (store_upload P req owner iv (some sealed) v).1
  unfolding store_upload
  store_upload-Uploaded K C req owner iv text sealed shelf w v n free small n12 r q s =
      let name = c_string req.filename in
      let f = write_file P (storage_path name) sealed.ciphertext v in
      let writing = write_file-quiet P F D K name sealed.ciphertext v in
      let after = quiet_trans P F D (OtherPath name) w v f.1 q writing in
      elim (Bool-cases f.0) [
        | inr short ↦
            rw (short, store_upload)
              (inl (
                quiet-Refines name shelf w _ n free r (
                  quiet_trans P F D (OtherPath name) w f.1 _ after
                    (respond-quiet P F D (OtherPath name) resp_error f.1))))
        | inl whole ↦
            rw (whole, store_upload)
              (record_upload-Uploaded req owner iv text sealed shelf w f.1 n free r after (record {
                small = small;
                nonce = n12;
                held =
                    write_file-contents P F (storage_path name) sealed.ciphertext v
                      (C.fclose_ok _ (storage_path name)) whole
                    ∙ ap (λ b. some b) s.text
                    ∙ ap (λ k. some (G.gcm_ciphertext k iv text)) (sym writing.key_same);
                mark = s.mark ∙ ap (λ k. G.gcm_tag k iv text) (sym writing.key_same);
              }))
      ]
