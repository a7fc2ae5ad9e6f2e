-- ===== src/Server/Listing.antt =====
-- `handle_list_request` of src/server/server.c.
pub mod Builder
use daemon_file_hosting.Base.{
  ℕ, zero, suc, ◌+◌, Bool, true, false, List, [], ◌∷◌, ◌++◌, Option, none, some, Bytes, codes,
  length, if◌then◌else◌,
}
use daemon_file_hosting.Base.Int.{ℤ, pos}
use daemon_file_hosting.Bson.{Doc, nil, field, int32, document, array}
use daemon_file_hosting.External.{Platform}
use daemon_file_hosting.World.{World, M, pure, ◌>>=◌, ◌>>◌, malloc, realloc, find}
use daemon_file_hosting.Protocol.{resp_success}
use daemon_file_hosting.Server.Reply.{send, respond_with}

-- The projection that is passed to the query.
abbrev pub list_options : Doc
list_options =
    field (codes "projection")
      (document (
        field (codes "filename") (int32 (pos 1)) (
          field (codes "size") (int32 (pos 1)) (
            field (codes "uploaded_at") (int32 (pos 1)) (
              field (codes "public") (int32 (pos 1))
                (field (codes "owner_fingerprint") (int32 (pos 1)) nil))))))
      nil

-- `query`. BSON_APPEND_ARRAY_BEGIN makes each of the three condition documents anew, as an empty
-- array, so that nothing is left of the owner, the recipient and the flag.
unfoldable pub list_query : Bytes → Doc
list_query client_fingerprint =
    field (codes "$or")
      (document (
        field (codes "$or") (array nil)
          (field (codes "$or") (array nil) (field (codes "$or") (array nil) nil))))
      nil

-- `or_query`: the document that `bson_new` has made and nothing is appended to.
abbrev pub or_query : Doc
or_query = nil

-- `full_list`: its first `total_len` bytes, and the size of its block. There is none at first.
pub record Buffer : Type 0 where
  pub text : Bytes
  pub capacity : ℕ

module _ (P : Platform) where
  -- One document's text added to the list. Where there is no room for it, it is left out.
  unfoldable pub add_json : Bytes → Option Buffer → M P (Option Buffer)
  add_json json none = do
    room ← malloc P (length json + 3)
    pure (if room then some (record { text = b'[' ∷ json; capacity = length json + 3 }) else none)
  add_json json (some b) = do
    room ← realloc P (length b.text + length json + 2)
    pure (
        if room
        then some
            (record { text = b.text ++ (b',' ∷ json); capacity = length b.text + length json + 2 })
        else some b)

  -- The loop over the cursor.
  unfoldable pub build_list : List Doc → Option Buffer → M P (Option Buffer)
  build_list [] list = pure list
  build_list (doc ∷ docs) list = elim (P.mongo.as_json doc) [
    | none ↦ build_list docs list
    | some json ↦ do list' ← add_json json list; build_list docs list'
  ]

  -- The text that is sent. For an empty list it is a copy of "[]".
  unfoldable pub close_list : Option Buffer → M P Bytes
  close_list none = do malloc P 3; pure (codes "[]")
  close_list (some b) = pure (b.text ++ (b']' ∷ []))

  unfoldable pub handle_list_request : Bytes → M P (Unit {0})
  unfolding build_list close_list
  handle_list_request fingerprint = do
    docs ← find P or_query list_options
    list ← build_list docs none
    text ← close_list list
    respond_with P resp_success (pos (length text))
    send P text
    pure tt
