-- ===== src/Path/Safety.antt =====
-- What the test on a requested name accepts, and where the path that is built from it leads.
use daemon_file_hosting.Base.{
  ℕ, ◌<◌, ◌≡◌, ◌≢◌, refl, ◌∙◌, ap, List, ◌↔◌, ◌⊎◌, inl, inr, true, false, [], ◌∷◌, ◌++◌, none, some,
  Bytes, codes, strchr, strrchr, strstr, starts_with, found, length, length-append, take-all, arith,
  ◌==◌, Bool-cases, if◌then◌else◌,
}
use daemon_file_hosting.Path.{base_name, is_unsafe, storage_path, storage_dir}

-- `p` occurs in `s`.
pub record Occurs (p s : Bytes) : Type 0 where
  pub before : Bytes
  pub after : Bytes
  pub split : s ≡ before ++ (p ++ after)

starts_with-Occurs : (s p : Bytes) → starts_with s p ≡ true → (b : Bytes) × (s ≡ p ++ b)
starts_with-Occurs s [] h = (s, refl)
starts_with-Occurs [] (p ∷ ps) h = cc
starts_with-Occurs (x ∷ s) (p ∷ ps) h =
    let (b, e) = starts_with-Occurs s ps (ground arith) in (b, ground arith)

starts_with-append : (p b : Bytes) → starts_with (p ++ b) p ≡ true
starts_with-append [] b = refl
starts_with-append (x ∷ p) b = ground (arith, starts_with-append p b)

Occurs-cons : (x : ℕ) {p s : Bytes} → Occurs p s → Occurs p (x ∷ s)
Occurs-cons x o = record { before = x ∷ o.before; after = o.after; split = ap (λ r. x ∷ r) o.split }

strstr-Occurs : (s p : Bytes) → found (strstr s p) ≡ true → Occurs p s
strstr-Occurs [] p h =
    let (b, e) = starts_with-Occurs [] p (ground arith) in
    record { before = []; after = b; split = e }
strstr-Occurs (x ∷ s) p h = elim (Bool-cases (starts_with (x ∷ s) p)) [
  | inl here ↦
      let (b, e) = starts_with-Occurs (x ∷ s) p here in record { before = []; after = b; split = e }
  | inr later ↦ Occurs-cons x (strstr-Occurs s p (ground arith))
]

strstr_at : (a b p : Bytes) → found (strstr (a ++ (p ++ b)) p) ≡ true
strstr_at [] [] [] = refl
strstr_at [] (x ∷ b) [] = refl
strstr_at [] b (x ∷ p) = ground (arith, starts_with-append p b)
strstr_at (x ∷ a) b p = ground (arith, strstr_at a b p)

strchr-Occurs : (s : Bytes) (c : ℕ) → found (strchr s c) ≡ true → Occurs (c ∷ []) s
strchr-Occurs [] c h = cc
strchr-Occurs (x ∷ s) c h = elim (Bool-cases (x == c)) [
  | inl here ↦ record { before = []; after = s; split = ground arith }
  | inr later ↦ Occurs-cons x (strchr-Occurs s c (ground arith))
]

strchr_at : (a b : Bytes) (c : ℕ) → found (strchr (a ++ (c ∷ b)) c) ≡ true
strchr_at [] b c = ground arith
strchr_at (x ∷ a) b c = ground (arith, strchr_at a b c)

-- A name is refused exactly when it holds ".." or a slash somewhere.
pub is_unsafe_iff :
    (f : Bytes) → (is_unsafe f ≡ true) ↔ (Occurs (codes "..") f ⊎ Occurs (codes "/") f)
unfolding is_unsafe
is_unsafe_iff f = (to, from)
  where
    to : is_unsafe f ≡ true → Occurs (codes "..") f ⊎ Occurs (codes "/") f
    to h = elim (Bool-cases (found (strstr f (codes "..")))) [
      | inl dots ↦ inl (strstr-Occurs f (codes "..") dots)
      | inr clean ↦ inr (strchr-Occurs f b'/' (ground arith))
    ]

    from : Occurs (codes "..") f ⊎ Occurs (codes "/") f → is_unsafe f ≡ true
    from (inl o) = rw o.split (ground (arith, strstr_at o.before o.after (codes "..")))
    from (inr o) = rw o.split (ground (arith, strchr_at o.before o.after b'/'))

strrchr-none : (s : Bytes) (c : ℕ) → found (strchr s c) ≡ false → strrchr s c ≡ none
strrchr-none [] c h = refl
strrchr-none (x ∷ s) c h = ground (arith, strrchr-none s c)

strrchr_at : (a f : Bytes) (c : ℕ) → strrchr f c ≡ none → strrchr (a ++ (c ∷ f)) c ≡ some (c ∷ f)
strrchr_at [] f c h = ground arith
strrchr_at (x ∷ a) f c h = ground (arith, strrchr_at a f c h)

pub base_name_under : (dir f : Bytes) → strrchr f b'/' ≡ none → base_name (dir ++ (b'/' ∷ f)) ≡ f
unfolding base_name
base_name_under dir f h = rw (strrchr_at dir f b'/' h, base_name)

pub is_unsafe-strrchr : (f : Bytes) → is_unsafe f ≡ false → strrchr f b'/' ≡ none
unfolding is_unsafe
is_unsafe-strrchr f h = strrchr-none f b'/' (ground arith)

-- For a name that fits its field the buffer of PATH_MAX bytes cuts nothing off.
pub storage_path_whole : (f : Bytes) → length f < 256 → storage_path f ≡ storage_dir ++ (b'/' ∷ f)
unfolding storage_path
storage_path_whole f h = take-all 4095 _ (omega (arith, length-append storage_dir (b'/' ∷ f)))

-- The names between the slashes of a path.
abbrev pub starting : ℕ → List Bytes → List Bytes
starting c [] = (c ∷ []) ∷ []
starting c (name ∷ names) = (c ∷ name) ∷ names

unfoldable pub components : Bytes → List Bytes
components [] = [] ∷ []
components (c ∷ path) =
    let rest = components path in if c == b'/' then [] ∷ rest else starting c rest

components-one : (f : Bytes) → found (strchr f b'/') ≡ false → components f ≡ f ∷ []
unfolding components
components-one [] h = refl
components-one (c ∷ f) h = elim (Bool-cases (c == b'/')) [
  | inl slash ↦ absurd (cc (rw slash at h))
  | inr other ↦ rw (other, components-one f (rw other at h)) refl
]

-- A path has at least one name.
some_name : (s : Bytes) → (name : Bytes) × (names : List Bytes) × (components s ≡ name ∷ names)
unfolding components
some_name [] = ([], [], refl)
some_name (x ∷ s) = elim (Bool-cases (x == b'/')) [
  | inl slash ↦ ([], components s, rw slash refl)
  | inr other ↦ let (name, names, e) = some_name s in (x ∷ name, names, rw (other, e) refl)
]

-- A file in a directory has the directory's names and one more.
components_under : (dir f : Bytes) → components (dir ++ (b'/' ∷ f)) ≡ components dir ++ components f
unfolding components
components_under [] f = refl
components_under (c ∷ dir) f =
    let (name, names, e) = some_name dir in
    let below = components_under dir f in
    elim (Bool-cases (c == b'/')) [
      | inl slash ↦ rw (slash, below) refl
      | inr other ↦ rw (other, below, e) refl
    ]

is_unsafe-strchr : (f : Bytes) → is_unsafe f ≡ false → found (strchr f b'/') ≡ false
unfolding is_unsafe
is_unsafe-strchr f h = ground arith

-- Names that pass the test lead to paths of which they are the base names.
pub base_name-storage_path :
    (f : Bytes) → length f < 256 → is_unsafe f ≡ false → base_name (storage_path f) ≡ f
base_name-storage_path f fits safe =
    rw (storage_path_whole f fits) (base_name_under storage_dir f (is_unsafe-strrchr f safe))

-- A name that passes the test and fits its field of 256 bytes, and is neither empty nor ".", which
-- the test lets pass, leads to a file directly in the storage directory: the path has the names of
-- the directory and then this one, which is not the parent directory, and is its base name.
pub storage_path-components :
    (f : Bytes)
    → length f < 256
    → is_unsafe f ≡ false
    → f ≢ []
    → f ≢ codes "."
    → (components (storage_path f) ≡ components storage_dir ++ (f ∷ []))
      × (f ≢ codes "..")
      × (base_name (storage_path f) ≡ f)
unfolding is_unsafe
storage_path-components f fits safe not_empty not_self =
    let whole = storage_path_whole f fits in
    (
      ap components whole
          ∙ components_under storage_dir f
          ∙ ap (λ l. components storage_dir ++ l) (components-one f (is_unsafe-strchr f safe)),
      λ up. cc (rw up at safe),
      base_name-storage_path f fits safe,
    )

-- The empty name and "." pass the test too, and lead to the directory itself.
pub empty_name_passes :
    (is_unsafe [] ≡ false) × (components (storage_path []) ≡ components storage_dir ++ ([] ∷ []))
unfolding is_unsafe components storage_path
empty_name_passes = (refl, refl)
