-- ===== src/Bson.antt =====
-- BSON documents as the program builds and reads them through libbson (src/server/server.c,
-- src/main.c, src/db): a `bson_t` is the list of its fields in the order of the appends.
use daemon_file_hosting.Base.{
  Bool, List, [], ◌∷◌, Option, none, some, Bytes, bytes_eq, if◌then◌else◌,
}
use daemon_file_hosting.Base.Int.{ℤ}

mutual
  pub data Value : Type 0 where
    utf8 : Bytes → Value
    int32 : ℤ → Value
    int64 : ℤ → Value
    boolean : Bool → Value
    binary : Bytes → Value
    date_time : ℤ → Value
    document : Doc → Value
    -- its elements under their indices
    array : Doc → Value

  pub data Doc : Type 0 where
    nil : Doc
    field : Bytes → Value → Doc → Doc

-- `BSON_APPEND_*`: a new field at the end.
abbrev pub append : Doc → Bytes → Value → Doc
append nil k v = field k v nil
append (field j w d) k v = field j w (append d k v)

-- `bson_iter_init_find`: the first field of that name.
abbrev pub find_field : Bytes → Doc → Option Value
find_field k nil = none
find_field k (field j v d) = if bytes_eq j k then some v else find_field k d

-- The keys that `bson_iter_next` visits, in order.
abbrev pub keys : Doc → List Bytes
keys nil = []
keys (field k _ d) = k ∷ keys d

-- `BSON_ITER_HOLDS_UTF8` and `bson_iter_utf8`; and so for the other types.
abbrev pub as_utf8 : Option Value → Option Bytes
as_utf8 (some (utf8 s)) = some s
as_utf8 _ = none

abbrev pub as_bool : Option Value → Option Bool
as_bool (some (boolean b)) = some b
as_bool _ = none

abbrev pub as_binary : Option Value → Option Bytes
as_binary (some (binary b)) = some b
as_binary _ = none

abbrev pub as_document : Option Value → Option Doc
as_document (some (document d)) = some d
as_document _ = none
