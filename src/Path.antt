-- ===== src/Path.antt =====
-- Paths in src/server/server.c: the base name, the name without its extension, the extension, the
-- test on a requested name, and the path under the storage directory.
pub mod Split
pub mod Safety
use daemon_file_hosting.Base.{
  ℕ, ◌-◌, Bool, ◌||◌, [], ◌∷◌, ◌++◌, Option, none, some, Bytes, codes, strchr, strrchr, strstr,
  found, length, take, drop, ◌==◌, if◌then◌else◌,
}

-- strrchr(path, '/'), then the character after it; the path itself if it has no slash.
unfoldable pub base_name : Bytes → Bytes
base_name path = elim (strrchr path b'/') [ none ↦ path | some slash ↦ drop 1 slash ]

-- `get_file_extension` on a path that is not NULL, up to the copy.
unfoldable pub extension : Bytes → Bytes
extension path =
    let filename = base_name path in
    elim (strrchr filename b'.') [
      | none ↦ []
      | some dot ↦ if length dot == length filename then [] else dot
    ]

-- `get_filename_without_extension`, up to the copy: `dot - filename` bytes, or all of them.
unfoldable pub stem : Bytes → Bytes
stem path =
    let filename = base_name path in
    elim (strrchr filename b'.') [
      | none ↦ filename
      | some dot ↦ take (length filename - length dot) filename
    ]

-- The test that upload and download make on `req->filename`.
unfoldable pub is_unsafe : Bytes → Bool
is_unsafe filename = found (strstr filename (codes "..")) || found (strchr filename b'/')

abbrev pub path_max : ℕ
path_max = 4096

-- `snprintf(buf, size, ...)` keeps `size - 1` bytes of the text.
abbrev pub snprintf : ℕ → Bytes → Bytes
snprintf size s = take (size - 1) s

abbrev pub storage_dir : Bytes
storage_dir = codes "../../filetrade"

-- snprintf(filepath, PATH_MAX, "%s/%s", STORAGE_DIR, filename)
unfoldable pub storage_path : Bytes → Bytes
storage_path filename = snprintf path_max (storage_dir ++ (b'/' ∷ filename))
