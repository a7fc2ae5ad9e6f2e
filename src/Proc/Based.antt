-- ===== src/Proc/Based.antt =====
-- `create_base_document` and the proc maps.
use daemon_file_hosting.Base.{
  ◌≡◌, refl, ◌∙◌, ap, ◌⊎◌, inl, inr, Bool, true, List, Option, none, some, Bytes, arith, Bool-cases,
  Option-cases,
}
use daemon_file_hosting.External.{Platform, Inserted, inserted, refused}
use daemon_file_hosting.External.Documents.{IsProcStore, keys_or_nil}
use daemon_file_hosting.World.{World}
use daemon_file_hosting.Proc.{create_base_document, insert_base, base_doc}

module _ (P : Platform) (S : IsProcStore P.mongo) where
  -- The keys of the proc map of `id`, none if there is no document.
  abbrev pub recorded : World P → Bytes → List Bytes
  recorded w id = keys_or_nil (S.proc w.db id)

  -- `create_base_document` changes no proc map and not `errno`, and if it returns true there is a
  -- document.
  pub record IsBased (id : Bytes) (w : World P) (r : Bool × World P) : Type 0 where
    pub same : recorded r.1 id ≡ recorded w id
    pub errno_same : r.1.errno ≡ w.errno
    pub there : r.0 ≡ true → S.proc r.1.db id ≡ some (recorded w id)

  insert_base-IsBased :
      (id f e : Bytes) (w : World P) → IsBased id w (insert_base P id (some f) (some e) w)
  unfolding insert_base
  insert_base-IsBased id f e w = go (P.mongo.insert_one w.db (base_doc id f e)).0 refl
    where
      go :
          (o : Inserted)
          → (P.mongo.insert_one w.db (base_doc id f e)).0 ≡ o
          → IsBased id w (insert_base P id (some f) (some e) w)
      go inserted h =
          let (absent, new) = S.insert_ok w.db id f e h in
          record { same = rw (new, absent); errno_same = refl; there = λ t. rw (new, absent) }
      go (refused code) h =
          let kept = S.insert_refused w.db id f e code h in
          record {
            same = ap keys_or_nil kept;
            errno_same = refl;
            there = λ t. kept ∙ present (ground arith) (Option-cases (S.proc w.db id));
          }
        where
          present :
              code ≡ 11000
              → (S.proc w.db id ≡ none) ⊎ ((ks : List Bytes) × (S.proc w.db id ≡ some ks))
              → S.proc w.db id ≡ some (recorded w id)
          present c (inl absent) = absurd (S.insert_duplicate w.db id f e (h ∙ ap refused c) absent)
          present c (inr (ks, e')) = rw e'

  insert_base-IsBased_any :
      (id : Bytes) (f e : Option Bytes) (w : World P) → IsBased id w (insert_base P id f e w)
  unfolding insert_base
  insert_base-IsBased_any id (some f) (some e) w = insert_base-IsBased id f e w
  insert_base-IsBased_any id (some f) none w = record {
    same = refl;
    errno_same = refl;
    there = λ t. cc;
  }
  insert_base-IsBased_any id none e w = record { same = refl; errno_same = refl; there = λ t. cc }

  -- What holds from a state with the same maps and `errno` holds from this one.
  IsBased-before :
      (id : Bytes) (w w' : World P) (r : Bool × World P)
      → S.proc w'.db id ≡ S.proc w.db id
      → w'.errno ≡ w.errno
      → IsBased id w' r
      → IsBased id w r
  IsBased-before id w w' r e n b = record {
    same = b.same ∙ ap keys_or_nil e;
    errno_same = b.errno_same ∙ n;
    there = λ t. b.there t ∙ ap (λ o. some (keys_or_nil o)) e;
  }

  pub create_base_document-IsBased :
      (id : Bytes) (w : World P) → IsBased id w (create_base_document P id w)
  unfolding create_base_document
  create_base_document-IsBased id w = elim (Bool-cases (P.mongo.get_collection w.db).0) [
    | inr down ↦
        rw (down, create_base_document)
          (record {
            same = ap keys_or_nil (S.proc-get_collection w.db id);
            errno_same = refl;
            there = λ t. cc;
          })
    | inl up ↦
        rw (up, create_base_document)
          (IsBased-before id w _ _ (S.proc-get_collection w.db id) refl
            (insert_base-IsBased_any id _ _ _))
  ]
