-- ===== src/World.antt =====
-- The state that a thread of the server works on, and the calls of external code as actions on it.
use daemon_file_hosting.Base.{ℕ, Bool, List, Option, Bytes}
use daemon_file_hosting.Bson.{Doc}
use daemon_file_hosting.External.{Platform, Inserted}

-- `file_crypto_ctx_t`
pub record FileCrypto : Type 0 where
  pub key : Bytes
  pub initialized : Bool

-- The external states of one platform, `errno`, and `g_file_crypto`.
pub record World (P : Platform) : Type 0 where
  pub conn : P.tls.Conn
  pub files : P.disk.Files
  pub db : P.mongo.Db
  pub engine : P.evp.Engine
  pub entropy : P.system.Entropy
  pub heap : P.system.Heap
  pub time : P.system.Time
  pub errno : ℕ
  pub g_file_crypto : FileCrypto

abbrev pub M : Platform → Type 0 → Type 0
M P A = World P → A × World P

abbrev pub pure : {P : Platform} {A : Type 0} → A → M P A
pure a w = (a, w)

infixl 5 ◌>>=◌ ◌>>◌
abbrev pub ◌>>=◌ : {P : Platform} {A B : Type 0} → M P A → (A → M P B) → M P B
◌>>=◌ m f w = f (m w).0 (m w).1

abbrev pub ◌>>◌ : {P : Platform} {A B : Type 0} → M P A → M P B → M P B
◌>>◌ m k w = k (m w).1

module _ (P : Platform) where
  abbrev pub malloc : ℕ → M P Bool
  malloc n w = let r = P.system.malloc w.heap n in (r.0, record w { heap = r.1 })

  abbrev pub rand_bytes : ℕ → M P (Option Bytes)
  rand_bytes n w = let r = P.system.rand_bytes w.entropy n in (r.0, record w { entropy = r.1 })

  abbrev pub insert_one : Doc → M P Inserted
  insert_one d w = let r = P.mongo.insert_one w.db d in (r.0, record w { db = r.1 })

  abbrev pub find : Doc → Doc → M P (List Doc)
  find q opts w = (P.mongo.find w.db q opts, w)

  abbrev pub realloc : ℕ → M P Bool
  realloc n w = let r = P.system.realloc w.heap n in (r.0, record w { heap = r.1 })

  abbrev pub update_one : Doc → Doc → M P Bool
  update_one q u w = let r = P.mongo.update_one w.db q u in (r.0, record w { db = r.1 })

  abbrev pub get_collection : M P Bool
  get_collection w = let r = P.mongo.get_collection w.db in (r.0, record w { db = r.1 })
