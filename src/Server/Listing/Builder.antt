-- ===== src/Server/Listing/Builder.antt =====
-- The list that `handle_list_request` builds: its text, and the size of its block.
use daemon_file_hosting.Base.{
  ℕ, ◌+◌, ◌<◌, ◌≡◌, refl, sym, ◌∙◌, ap, ◌⊎◌, ◌==◌, inl, inr, true, false, List, [], ◌∷◌, ◌++◌,
  Option, none, some, Bytes, codes, length, length-append, append_assoc, arith, Bool-cases,
  Option-cases, append-nil,
}
use daemon_file_hosting.External.{Platform}
use daemon_file_hosting.Bson.{Doc}
use daemon_file_hosting.World.{World}
use daemon_file_hosting.Server.Listing.{Buffer, add_json, build_list, close_list}

-- No allocation fails.
pub record HasRoom (P : Platform) : Type 0 where
  pub malloc_ok : (h : P.system.Heap) (n : ℕ) → (P.system.malloc h n).0 ≡ true
  pub realloc_ok : (h : P.system.Heap) (n : ℕ) → (P.system.realloc h n).0 ≡ true

-- The documents that have a text, as their texts.
unfoldable pub texts : (P : Platform) → List Doc → List Bytes
texts P [] = []
texts P (doc ∷ docs) = elim (P.mongo.as_json doc) [
  | none ↦ texts P docs
  | some json ↦ json ∷ texts P docs
]

-- The texts, each after a comma.
abbrev pub more_items : List Bytes → Bytes
more_items [] = []
more_items (json ∷ rest) = (b',' ∷ json) ++ more_items rest

-- The JSON array of the texts.
abbrev pub json_array : List Bytes → Bytes
json_array [] = codes "[]"
json_array (json ∷ rest) = b'[' ∷ json ++ (more_items rest ++ (b']' ∷ []))

-- The bytes that the block must have for the text, the bracket and the NUL that are still to come.
abbrev pub needed : Buffer → ℕ
needed b = length b.text + 2

-- The buffer after one more text.
abbrev grown : Bytes → Buffer → Buffer
grown json b = record { text = b.text ++ (b',' ∷ json); capacity = length b.text + length json + 2 }

abbrev opened : Bytes → Buffer
opened json = record { text = b'[' ∷ json; capacity = length json + 3 }

module _ (P : Platform) (R : HasRoom P) where
  add_json-more :
      (json : Bytes) (b : Buffer) (w : World P)
      → add_json P json (some b) w ≡ (
        some (grown json b),
        record w { heap = (P.system.realloc w.heap (length b.text + length json + 2)).1 },
      )
  unfolding add_json
  add_json-more json b w = rw (R.realloc_ok w.heap (length b.text + length json + 2), add_json)

  add_json-first :
      (json : Bytes) (w : World P)
      → add_json P json none w
        ≡ (some (opened json), record w { heap = (P.system.malloc w.heap (length json + 3)).1 })
  unfolding add_json
  add_json-first json w = rw (R.malloc_ok w.heap (length json + 3), add_json)

  build_list-skip :
      (doc : Doc) (docs : List Doc) (list : Option Buffer) (w : World P)
      → P.mongo.as_json doc ≡ none
      → build_list P (doc ∷ docs) list w ≡ build_list P docs list w
  unfolding build_list
  build_list-skip doc docs list w e = rw (e, build_list)

  build_list-step :
      (doc : Doc) (docs : List Doc) (list : Option Buffer) (w : World P) {json : Bytes}
      → P.mongo.as_json doc ≡ some json
      → build_list P (doc ∷ docs) list w
        ≡ (let r = add_json P json list w in build_list P docs r.0 r.1)
  unfolding build_list
  build_list-step doc docs list w e = rw (e, build_list)

  texts-skip :
      (doc : Doc) (docs : List Doc)
      → P.mongo.as_json doc ≡ none
      → texts P (doc ∷ docs) ≡ texts P docs
  unfolding texts
  texts-skip doc docs e = rw (e, texts)

  texts-step :
      (doc : Doc) (docs : List Doc) {json : Bytes}
      → P.mongo.as_json doc ≡ some json
      → texts P (doc ∷ docs) ≡ json ∷ texts P docs
  unfolding texts
  texts-step doc docs e = rw (e, texts)

  -- What the loop does from a buffer on: every text is added, and after the first of them the
  -- block is one byte short of what is still to be written.
  record IsBuilt (b : Buffer) (items : List Bytes) (list : Option Buffer) : Type 0 where
    result : Buffer
    done : list ≡ some result
    whole : result.text ≡ b.text ++ more_items items
    short : 0 < length items → needed result ≡ result.capacity + 1
    same : length items ≡ 0 → result ≡ b

  extend :
      (json : Bytes) (b : Buffer) (items : List Bytes) (list : Option Buffer)
      → IsBuilt (grown json b) items list
      → IsBuilt b (json ∷ items) list
  extend json b items list i = record {
    result = i.result;
    done = i.done;
    whole = i.whole ∙ append_assoc b.text (b',' ∷ json) (more_items items);
    short = λ _. short_now (Bool-cases (length items == 0));
    same = λ h. absurd (omega arith);
  }
    where
      short_now :
          ((length items == 0) ≡ true) ⊎ ((length items == 0) ≡ false)
          → needed i.result ≡ i.result.capacity + 1
      short_now (inl none_left) =
          rw (i.same (ground arith)) (omega (arith, length-append b.text (b',' ∷ json)))
      short_now (inr more_left) = i.short (ground arith)

  build_list-more :
      (docs : List Doc) (b : Buffer) (w : World P)
      → IsBuilt b (texts P docs) (build_list P docs (some b) w).0
  unfolding build_list texts
  build_list-more [] b w = record {
    result = b;
    done = refl;
    whole = sym (append-nil b.text);
    short = λ h. absurd (omega arith);
    same = λ h. refl;
  }
  build_list-more (doc ∷ docs) b w = elim (Option-cases (P.mongo.as_json doc)) [
    | inl nothing ↦
        rw (build_list-skip doc docs (some b) w nothing, texts-skip doc docs nothing)
          (build_list-more docs b w)
    | inr (json, e) ↦
        rw (build_list-step doc docs (some b) w e, add_json-more json b w, texts-step doc docs e)
          (extend json b (texts P docs) _ (build_list-more docs (grown json b) _))
  ]

  -- The text of the list, and the size of its block.
  build_list-first :
      (docs : List Doc) (json : Bytes) (rest : List Bytes) (w : World P)
      → texts P docs ≡ json ∷ rest
      → IsBuilt (opened json) rest (build_list P docs none w).0
  unfolding texts
  build_list-first [] json rest w h = cc
  build_list-first (doc ∷ docs) json rest w h = elim (Option-cases (P.mongo.as_json doc)) [
    | inl nothing ↦
        rw (build_list-skip doc docs none w nothing)
          (build_list-first docs json rest w (sym (texts-skip doc docs nothing) ∙ h))
    | inr (j, e) ↦
        let h' : j ∷ texts P docs ≡ json ∷ rest = sym (texts-step doc docs e) ∙ h in
        let same_json : j ≡ json = cc in
        let same_rest : texts P docs ≡ rest = cc in
        rw (build_list-step doc docs none w e, add_json-first j w, ← same_json, ← same_rest)
          (build_list-more docs (opened j) _)
  ]

  build_list-none :
      (docs : List Doc) (w : World P) → texts P docs ≡ [] → build_list P docs none w ≡ (none, w)
  unfolding build_list texts
  build_list-none [] w h = refl
  build_list-none (doc ∷ docs) w h = elim (Option-cases (P.mongo.as_json doc)) [
    | inl nothing ↦
        build_list-skip doc docs none w nothing
        ∙ build_list-none docs w (sym (texts-skip doc docs nothing) ∙ h)
    | inr (json, e) ↦ let clash : json ∷ texts P docs ≡ [] = sym (texts-step doc docs e) ∙ h in cc
  ]

  -- If no allocation fails, the list that is sent is the JSON array of the texts of the documents
  -- found, in their order; if none of them has a text it is "[]".
  pub build_list-json_array :
      (docs : List Doc) (w : World P)
      → let r = build_list P docs none w in (close_list P r.0 r.1).0 ≡ json_array (texts P docs)
  unfolding close_list
  build_list-json_array docs w = go (texts P docs) refl
    where
      go :
          (items : List Bytes)
          → texts P docs ≡ items
          → let r = build_list P docs none w in (close_list P r.0 r.1).0 ≡ json_array items
      go [] e = rw (build_list-none docs w e, close_list)
      go (json ∷ rest) e =
          let b = build_list-first docs json rest w e in
          rw (b.done, close_list)
            (ap (λ t. t ++ (b']' ∷ [])) b.whole
              ∙ append_assoc (opened json).text (more_items rest) (b']' ∷ []))

  -- If no allocation fails and at least two documents have a text, the block of the list is one
  -- byte smaller than the text, its closing bracket and the NUL, which the code then writes.
  pub build_list_overflows :
      (docs : List Doc) (w : World P)
      → 1 < length (texts P docs)
      → (b : Buffer) × ((build_list P docs none w).0 ≡ some b) × (needed b ≡ b.capacity + 1)
  build_list_overflows docs w h = go (texts P docs) refl h
    where
      go :
          (items : List Bytes)
          → texts P docs ≡ items
          → 1 < length items
          → (b : Buffer) × ((build_list P docs none w).0 ≡ some b) × (needed b ≡ b.capacity + 1)
      go [] e h = absurd (omega arith)
      go (json ∷ rest) e h =
          let b = build_list-first docs json rest w e in (b.result, b.done, b.short (omega arith))
