-- ===== src/Tests/Exchange.antt =====
-- The client's files, on a disk that does not fail.
use daemon_file_hosting.Base.{ℕ, ◌++◌, [], true, false, some, none, Option, bytes_eq_refl, length}
use daemon_file_hosting.Client.{LocalDisk}
use daemon_file_hosting.Client.Receive.{IsLocalStore}
use daemon_file_hosting.Tests.Platform.{Files, put, size_of, text_of}

abbrev pub opened_at : Option ℕ → Option ℕ
opened_at none = some 0
opened_at (some n) = some n

abbrev pub local_disk : LocalDisk
local_disk = record {
  Files = Files;
  open_append = λ f path. (opened_at (size_of (f path)), put f path (text_of (f path)));
  open_write = λ f path. (true, put f path []);
  append = λ f path text. (length text, put f path (text_of (f path) ++ text));
  size_of = λ f path. size_of (f path);
  read_all = λ f path. some (text_of (f path), false);
}

unfoldable pub local_IsLocalStore : IsLocalStore local_disk
local_IsLocalStore = record {
  contents = λ f path. f path;
  open_write-empty = λ f path opened. rw (bytes_eq_refl path);
  append-whole = λ f path old text held whole. rw (bytes_eq_refl path, held);
}
