-- ===== src/Tests/Texts.antt =====
-- Paths, numbers and fingerprints.
use daemon_file_hosting.Base.{
  ℕ, zero, suc, ◌≡◌, ◌≢◌, refl, ◌↔◌, ◌⊎◌, ◌++◌, ◌∷◌, [], true, some, Bytes, codes, strrchr, arith,
}
use daemon_file_hosting.Path.{base_name, stem, extension, is_unsafe, storage_path, storage_dir}
use daemon_file_hosting.Path.Split.{stem-append-extension}
use daemon_file_hosting.Path.Safety.{Occurs, components, is_unsafe_iff, storage_path-components}
use daemon_file_hosting.Server.Session.Fingerprint.{AreBytes, hex_text-injective}
use daemon_file_hosting.Tests.Platform.{copies}

abbrev archive : Bytes
archive = codes "/srv/notes.tar.gz"

abbrev profile : Bytes
profile = codes "/home/.profile"

parts : (stem archive ≡ codes "notes.tar") × (extension archive ≡ codes ".gz")
unfolding stem extension base_name
parts = (refl, refl)

archive_has_name : strrchr (base_name archive) b'.' ≢ some (base_name archive)
unfolding base_name
archive_has_name h = cc h

stem-append-extension_example : stem archive ++ extension archive ≡ base_name archive
stem-append-extension_example = stem-append-extension archive archive_has_name

is_unsafe_iff_example :
    (is_unsafe (codes "../key") ≡ true)
    ↔ (Occurs (codes "..") (codes "../key") ⊎ Occurs (codes "/") (codes "../key"))
is_unsafe_iff_example = is_unsafe_iff (codes "../key")

some_text : codes "a.txt" ≢ []
some_text e = cc e

no_dot : codes "a.txt" ≢ codes "."
no_dot e = cc e

storage_path-components_example :
    (components (storage_path (codes "a.txt")) ≡ components storage_dir ++ (codes "a.txt" ∷ []))
    × (codes "a.txt" ≢ codes "..")
    × (base_name (storage_path (codes "a.txt")) ≡ codes "a.txt")
unfolding is_unsafe
storage_path-components_example =
    storage_path-components (codes "a.txt") (omega arith) refl some_text no_dot

copies-AreBytes : (n : ℕ) → AreBytes (copies n 171)
copies-AreBytes zero = tt
copies-AreBytes (suc n) = (omega arith, copies-AreBytes n)

abbrev digest : Bytes
digest = 1 ∷ 171 ∷ []

digest-AreBytes : AreBytes digest
digest-AreBytes = (omega arith, (omega arith, tt))

hex_text-injective_example : digest ≡ digest
hex_text-injective_example = hex_text-injective digest digest digest-AreBytes digest-AreBytes refl
