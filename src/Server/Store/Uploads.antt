-- ===== src/Server/Store/Uploads.antt =====
-- An upload of a name that is free puts its text on the shelf, or changes nothing on it.
pub mod Files
pub mod Accepting
pub mod Handler
pub mod Success
use mathlib.Core.Option.{some-injective}
use daemon_file_hosting.Base.{
  ℕ, ◌≡◌, ◌≢◌, refl, sym, subst, ◌∙◌, ap, ◌⊎◌, inl, inr, Bool, true, false, Option, none, some,
  List, [], ◌∷◌, ◌++◌, Bytes, bytes_eq, bytes_eq_refl, bytes_eq_sound, Bool-cases, length,
  if◌then◌else◌,
}
use daemon_file_hosting.Base.Int.{ℤ}
use daemon_file_hosting.External.{Platform}
use daemon_file_hosting.External.Laws.{IsGcm, IsFileStore}
use daemon_file_hosting.World.{World}
use daemon_file_hosting.Path.{base_name, storage_path}
use daemon_file_hosting.Path.Safety.{base_name-storage_path}
use daemon_file_hosting.Server.Upload.{metadata}
use daemon_file_hosting.Server.Download.Held.{IsSealedAt}
use daemon_file_hosting.Server.Store.{Item, Shelf, put, IsName, IsHeld, Refines}
use daemon_file_hosting.Server.Store.Laws.{IsDocStore}
use daemon_file_hosting.Server.Store.Quiet.{sealed-same}

-- Different names lead to different files.
pub storage_path-injective :
    (a b : Bytes) → IsName a → IsName b → storage_path a ≡ storage_path b → a ≡ b
storage_path-injective a b n m e =
    sym (base_name-storage_path a n.short n.safe)
    ∙ ap base_name e
    ∙ base_name-storage_path b m.short m.safe

-- The paths of the other names.
abbrev pub OtherPath : Bytes → Bytes → Type 0
OtherPath name path = storage_path name ≢ path

-- A name that is on the shelf is not one that is free.
pub other_path :
    (shelf : Shelf) (name other : Bytes) (item : Item)
    → IsName name
    → IsName other
    → shelf name ≡ none
    → shelf other ≡ some item
    → OtherPath name (storage_path other)
other_path shelf name other item n m free held same =
    cc (ap shelf (storage_path-injective name other n m same), free, held)

put_self : (name : Bytes) (item : Item) (shelf : Shelf) → put name item shelf name ≡ some item
put_self name item shelf = rw (bytes_eq_refl name)

module _ (P : Platform) (G : IsGcm P.evp) (F : IsFileStore P.disk) (D : IsDocStore P.mongo) where
  -- The document and the file of a name that was free are there, and the rest is as it was.
  pub record IsPut (name : Bytes) (item : Item) (w w' : World P) : Type 0 where
    pub size : ℤ
    pub iv : Bytes
    pub tag : Bytes
    pub named_put :
        (other : Bytes)
        → D.named w'.db other ≡ (
            if bytes_eq other name
            then D.named w.db other ++ (metadata name size iv tag item.owner ∷ [])
            else D.named w.db other)
    pub key_same : w'.g_file_crypto.key ≡ w.g_file_crypto.key
    pub contents_same :
        (path : Bytes) → OtherPath name path → F.contents w'.files path ≡ F.contents w.files path
    pub sealed_at : IsSealedAt P G F (storage_path name) iv tag item.text w'

  pub put-Refines :
      (name : Bytes) (item : Item) (shelf : Shelf) (w w' : World P)
      → IsName name
      → shelf name ≡ none
      → IsPut name item w w'
      → Refines P G F D w shelf
      → Refines P G F D w' (put name item shelf)
  put-Refines name item shelf w w' n free p r = record {
    held = λ other that m e. elim (Bool-cases (bytes_eq other name)) [
      | inl same ↦
          subst (λ o. IsHeld P G F D o that w') (sym (bytes_eq_sound other name same))
            (subst (λ i. IsHeld P G F D name i w') (some-injective _ _ (rw same at e)) new)
      | inr differ ↦ old other that m differ (rw differ at e)
    ];
    free = λ other m e. elim (Bool-cases (bytes_eq other name)) [
      | inl same ↦ cc (rw same at e)
      | inr differ ↦ p.named_put other ∙ rw differ (r.free other m (rw differ at e))
    ];
  }
    where
      new : IsHeld P G F D name item w'
      new = record {
        size = p.size;
        iv = p.iv;
        tag = p.tag;
        others = [];
        first = p.named_put name ∙ rw (bytes_eq_refl name, r.free name n free) refl;
        sealed_at = p.sealed_at;
      }

      old :
          (other : Bytes) (that : Item)
          → IsName other
          → bytes_eq other name ≡ false
          → shelf other ≡ some that
          → IsHeld P G F D other that w'
      old other that m differ e =
          let h = r.held other that m e in
          record {
            size = h.size;
            iv = h.iv;
            tag = h.tag;
            others = h.others;
            first = p.named_put other ∙ rw differ h.first;
            sealed_at =
                sealed-same P G F D (storage_path other) h.iv h.tag that.text w w' p.key_same
                  (p.contents_same (storage_path other)
                    (other_path shelf name other that n m free e))
                  h.sealed_at;
          }
