-- ===== src/Server/Store/Quiet.antt =====
-- Steps of the server that change nothing on the shelf.
use daemon_file_hosting.Base.Int.{ℤ}
use daemon_file_hosting.Base.{ℕ, ◌≡◌, refl, ◌∙◌, sym, ap, some, Bytes}
use daemon_file_hosting.External.{Platform}
use daemon_file_hosting.External.Laws.{IsGcm, IsFileStore}
use daemon_file_hosting.World.{World, FileCrypto}
use daemon_file_hosting.Path.{storage_path}
use daemon_file_hosting.Proc.{append_proc_event}
use daemon_file_hosting.Proc.Preserve.{IsKeptByCalls, append_proc_event-kept}
use daemon_file_hosting.Server.Reply.{respond, respond_with, send}
use daemon_file_hosting.Server.Download.Held.{IsSealedAt}
use daemon_file_hosting.Server.Store.Laws.{IsDocStore}
use daemon_file_hosting.Server.Store.{Shelf, Item, IsName, IsHeld, Refines}

module _ (P : Platform) (F : IsFileStore P.disk) (D : IsDocStore P.mongo) where
  -- The documents, the key and the contents of the paths that count are the same.
  pub record IsQuietOn (Counts : Bytes → Type 0) (w w' : World P) : Type 0 where
    pub docs_same : (name : Bytes) → D.named w'.db name ≡ D.named w.db name
    pub key_same : w'.g_file_crypto.key ≡ w.g_file_crypto.key
    pub contents_same :
        (path : Bytes) → Counts path → F.contents w'.files path ≡ F.contents w.files path

  abbrev pub Everywhere : Bytes → Type 0
  Everywhere path = Unit {0}

  abbrev pub IsQuiet : World P → World P → Type 0
  IsQuiet w w' = IsQuietOn Everywhere w w'

  pub quiet_trans :
      (C : Bytes → Type 0) (w v u : World P) → IsQuietOn C w v → IsQuietOn C v u → IsQuietOn C w u
  quiet_trans C w v u a b = record {
    docs_same = λ name. b.docs_same name ∙ a.docs_same name;
    key_same = b.key_same ∙ a.key_same;
    contents_same = λ path c. b.contents_same path c ∙ a.contents_same path c;
  }

  -- Equal parts are quiet.
  pub quiet_refl :
      (C : Bytes → Type 0) (w w' : World P)
      → w'.db ≡ w.db
      → w'.files ≡ w.files
      → w'.g_file_crypto ≡ w.g_file_crypto
      → IsQuietOn C w w'
  quiet_refl C w w' d f g = record {
    docs_same = λ name. ap (λ b. D.named b name) d;
    key_same = ap (λ (c : FileCrypto). c.key) g;
    contents_same = λ path c. ap (λ b. F.contents b path) f;
  }

  pub send-quiet : (C : Bytes → Type 0) (buf : Bytes) (w : World P) → IsQuietOn C w (send P buf w).1
  unfolding send
  send-quiet C buf w = quiet_refl C w _ refl refl refl

  pub respond_with-quiet :
      (C : Bytes → Type 0) (status : ℕ) (size : ℤ) (w : World P)
      → IsQuietOn C w (respond_with P status size w).1
  unfolding respond_with send
  respond_with-quiet C status size w = quiet_refl C w _ refl refl refl

  pub respond-quiet :
      (C : Bytes → Type 0) (status : ℕ) (w : World P) → IsQuietOn C w (respond P status w).1
  unfolding respond
  respond-quiet C status w = respond_with-quiet C status _ w

  changed :
      (C : Bytes → Type 0) (w v v' : World P)
      → IsQuietOn C w v
      → ((name : Bytes) → D.named v'.db name ≡ D.named v.db name)
      → v'.files ≡ v.files
      → v'.g_file_crypto ≡ v.g_file_crypto
      → IsQuietOn C w v'
  changed C w v v' q d f g = record {
    docs_same = λ name. d name ∙ q.docs_same name;
    key_same = ap (λ (c : FileCrypto). c.key) g ∙ q.key_same;
    contents_same = λ path c. ap (λ b. F.contents b path) f ∙ q.contents_same path c;
  }

  Quiet-IsKeptByCalls : (C : Bytes → Type 0) (w : World P) → IsKeptByCalls P (IsQuietOn C w)
  Quiet-IsKeptByCalls C w = record {
    by_collection = λ v q. changed C w v _ q (D.named-get_collection v.db) refl refl;
    by_insertion = λ id f e v q. changed C w v _ q (D.named-base_doc v.db id f e) refl refl;
    by_update = λ id path event v q.
        changed C w v _ q (λ name. D.named-update v.db id path name event) refl refl;
    by_malloc = λ v heap q. changed C w v _ q (λ name. refl) refl refl;
    by_clock = λ v t q. changed C w v _ q (λ name. refl) refl refl;
    by_strtol = λ keys v q. changed C w v _ q (λ name. refl) refl refl;
  }

  pub append_proc_event-quiet :
      (C : Bytes → Type 0) (id change_type status : Bytes) (w : World P)
      → IsQuietOn C w (append_proc_event P id change_type status w).1
  append_proc_event-quiet C id change_type status w =
      append_proc_event-kept P (IsQuietOn C w) (Quiet-IsKeptByCalls C w) id change_type status w
        (quiet_refl C w w refl refl refl)

module _ (P : Platform) (G : IsGcm P.evp) (F : IsFileStore P.disk) (D : IsDocStore P.mongo) where
  -- A sealed text stays so while its file and the key are the same.
  pub sealed-same :
      (path iv tag text : Bytes) (w w' : World P)
      → w'.g_file_crypto.key ≡ w.g_file_crypto.key
      → F.contents w'.files path ≡ F.contents w.files path
      → IsSealedAt P G F path iv tag text w
      → IsSealedAt P G F path iv tag text w'
  sealed-same path iv tag text w w' same there s = record {
    small = s.small;
    nonce = s.nonce;
    held = there ∙ s.held ∙ ap (λ k. some (G.gcm_ciphertext k iv text)) (sym same);
    mark = s.mark ∙ ap (λ k. G.gcm_tag k iv text) (sym same);
  }

  -- A text whose path counts is still held.
  pub IsHeld-quiet :
      (C : Bytes → Type 0) (name : Bytes) (item : Item) (w w' : World P)
      → IsQuietOn P F D C w w'
      → C (storage_path name)
      → IsHeld P G F D name item w
      → IsHeld P G F D name item w'
  IsHeld-quiet C name item w w' q c h = record {
    size = h.size;
    iv = h.iv;
    tag = h.tag;
    others = h.others;
    first = q.docs_same name ∙ h.first;
    sealed_at =
        sealed-same (storage_path name) h.iv h.tag item.text w w' q.key_same
          (q.contents_same (storage_path name) c) h.sealed_at;
  }

  -- A quiet step keeps the shelf, if it is quiet on the paths of all names that are not free.
  pub Refines-quiet :
      (C : Bytes → Type 0) (shelf : Shelf) (w w' : World P)
      → IsQuietOn P F D C w w'
      → ((name : Bytes) (item : Item)
          → IsName name
          → shelf name ≡ some item
          → C (storage_path name))
      → Refines P G F D w shelf
      → Refines P G F D w' shelf
  Refines-quiet C shelf w w' q counts r = record {
    held = λ name item n e.
        IsHeld-quiet C name item w w' q (counts name item n e) (r.held name item n e);
    free = λ name n e. q.docs_same name ∙ r.free name n e;
  }
