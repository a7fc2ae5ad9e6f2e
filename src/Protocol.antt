-- ===== src/Protocol.antt =====
-- The messages of include/protocol.h. A message's numbers are kept as values and its char arrays
-- as their bytes; `sizeof` is that of the x86-64 ABI.
use daemon_file_hosting.Base.{ℕ, zero, suc, ◌+◌, ◌*◌, ◌/◌, ◌%◌, [], ◌∷◌, ◌++◌, Bytes}
use daemon_file_hosting.Base.Int.{ℤ, pos, to_size}

-- `CommandType` travels as an `int`, so a peer may send any value.
abbrev pub cmd_upload : ℤ
cmd_upload = pos 0

abbrev pub cmd_download : ℤ
cmd_download = pos 1

abbrev pub cmd_list : ℤ
cmd_list = pos 2

-- `ResponseStatus`, and the macro beside it. `resp_unknown_command` has the value of
-- `resp_error`, and `resp_integrity_error` that of `resp_permission_denied`.
abbrev pub resp_success : ℕ
resp_success = 0

abbrev pub resp_file_not_found : ℕ
resp_file_not_found = 2

abbrev pub resp_permission_denied : ℕ
resp_permission_denied = 3

abbrev pub resp_integrity_error : ℕ
resp_integrity_error = 3

abbrev pub resp_error : ℕ
resp_error = 4

abbrev pub resp_invalid_offset : ℕ
resp_invalid_offset = 5

abbrev pub resp_unknown_command : ℕ
resp_unknown_command = 4

abbrev pub fingerprint_len : ℕ
fingerprint_len = 65

abbrev pub blake3_hash_len : ℕ
blake3_hash_len = 32

abbrev pub buffer_size : ℕ
buffer_size = 4096

pub record RequestHeader : Type 0 where
  pub command : ℤ
  pub filename : Bytes
  pub filesize : ℤ
  pub offset : ℤ
  pub flags : ℕ
  pub file_hash : Bytes
  pub recipient : Bytes

pub record ResponseHeader : Type 0 where
  pub status : ℕ
  pub filesize : ℤ

-- The `k` bytes of `n`, lowest first.
abbrev pub little_endian : ℕ → ℕ → Bytes
little_endian zero n = []
little_endian (suc k) n = (n % 256) ∷ little_endian k (n / 256)

abbrev pub from_little_endian : Bytes → ℕ
from_little_endian [] = 0
from_little_endian (b ∷ s) = b + 256 * from_little_endian s

-- A `ResponseHeader` in memory: the status, four bytes of padding, the size.
unfoldable pub encode_response : ResponseHeader → Bytes
encode_response r =
    little_endian 4 r.status ++ (little_endian 4 0 ++ little_endian 8 (to_size r.filesize))
