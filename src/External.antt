-- ===== src/External.antt =====
-- The code that the program calls and does not contain, as interfaces over unknown states:
-- OpenSSL's connections and ciphers, the file system, MongoDB's driver, the C library's allocator
-- and clock, and the BLAKE3 library. The laws that some theorems assume are in the child module.
pub mod Laws
pub mod Documents
use daemon_file_hosting.Base.{ℕ, Bool, List, Option, Bytes}
use daemon_file_hosting.Base.Int.{ℤ}
use daemon_file_hosting.Bson.{Doc}

-- One connection: `SSL_new` and `SSL_accept` succeed or not; the peer's certificate is read as its
-- SHA-256 digest; `SSL_write(ssl, buf, num)` returns a count, or a value that is not positive;
-- `SSL_read(ssl, buf, num)` delivers bytes, or fails.
pub record Tls : Type 1 where
  pub Conn : Type 0
  pub ssl_new : Conn → Bool × Conn
  pub ssl_accept : Conn → Bool × Conn
  pub peer_digest : Conn → Option Bytes
  pub ssl_shutdown : Conn → Conn
  pub ssl_write : Conn → Bytes → ℤ → ℤ × Conn
  pub ssl_read : Conn → ℤ → Option Bytes × Conn

-- Files by path. `fwrite` returns the number of bytes written, `fclose` whether what was written has
-- reached the file.
pub record Disk : Type 1 where
  pub Files : Type 0
  pub fopen_write : Files → Bytes → Bool × Files
  pub fwrite : Files → Bytes → Bytes → ℕ × Files
  pub fclose : Files → Bytes → Bool × Files
  pub stat : Files → Bytes → Option ℕ
  -- whether a path is a regular file; `none` if `stat` fails
  pub is_regular : Files → Bytes → Option Bool
  pub fopen_read : Files → Bytes → Bool
  pub fread : Files → Bytes → ℕ → Bytes

-- `mongoc_collection_insert_one`: success, or `error.code`.
pub data Inserted : Type 0 where
  inserted : Inserted
  refused : ℕ → Inserted

-- The collection that both programs use, and libbson's printer. `find` takes the query and the
-- options, an empty document where the program passes NULL, and gives the documents that the cursor
-- yields before it ends or fails.
pub record Mongo : Type 1 where
  pub Db : Type 0
  pub get_collection : Db → Bool × Db
  pub insert_one : Db → Doc → Inserted × Db
  pub find : Db → Doc → Doc → List Doc
  pub update_one : Db → Doc → Doc → Bool × Db
  pub as_json : Doc → Option Bytes
  -- what `errno` is after the driver's calls on the collection, if it was something before them
  pub errno_left : Db → ℕ → ℕ

-- OpenSSL's envelope interface. A call that does not return 1 gives `none`; a call that returns 1
-- gives the context after it and the bytes that it has written.
pub record Evp : Type 1 where
  pub Engine : Type 0
  pub Ctx : Type 0
  pub ctx_new : Engine → Option Ctx × Engine
  pub ctx_free : Engine → Ctx → Engine
  pub encrypt_init_cipher : Ctx → Option Ctx
  pub encrypt_init_key : Ctx → Bytes → Bytes → Option Ctx
  pub encrypt_update : Ctx → Bytes → ℤ → Option (Bytes × Ctx)
  pub encrypt_final : Ctx → Option (Bytes × Ctx)
  pub get_tag : Ctx → ℕ → Option Bytes
  pub decrypt_init_cipher : Ctx → Option Ctx
  pub decrypt_init_key : Ctx → Bytes → Bytes → Option Ctx
  pub decrypt_update : Ctx → Bytes → ℤ → Option (Bytes × Ctx)
  pub set_tag : Ctx → ℕ → Bytes → Option Ctx
  pub decrypt_final : Ctx → Option (Bytes × Ctx)

-- `RAND_bytes`, `malloc`, `realloc`, `gettimeofday` (seconds and microseconds) and `bson_get_monotonic_time`.
pub record System : Type 1 where
  pub Entropy : Type 0
  pub rand_bytes : Entropy → ℕ → Option Bytes × Entropy
  pub Heap : Type 0
  pub malloc : Heap → ℕ → Bool × Heap
  pub realloc : Heap → ℕ → Bool × Heap
  pub Time : Type 0
  pub gettimeofday : Time → ℕ × ℕ × Time
  pub monotonic : Time → ℕ × Time

pub record Blake3 : Type 1 where
  pub Hasher : Type 0
  pub hasher_init : Hasher
  pub hasher_update : Hasher → Bytes → Hasher
  pub hasher_finalize : Hasher → ℕ → Bytes

pub record Platform : Type 1 where
  pub tls : Tls
  pub disk : Disk
  pub mongo : Mongo
  pub evp : Evp
  pub system : System
  pub blake3 : Blake3
