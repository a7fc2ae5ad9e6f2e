-- ===== src/Server/Session/Fingerprint.antt =====
-- The text of a client's fingerprint.
use daemon_file_hosting.Base.{
  ℕ, ◌*◌, ◌/◌, ◌%◌, ◌<◌, ◌≡◌, refl, true, false, [], ◌∷◌, Bytes, length, arith,
}
use daemon_file_hosting.Server.Upload.{is_hex, all_hex, is_bad_recipient}
use daemon_file_hosting.Server.Session.{hex_digit, hex_text}

-- Every entry is a byte.
abbrev pub AreBytes : Bytes → Type 0
AreBytes [] = Unit {0}
AreBytes (b ∷ s) = (b < 256) × AreBytes s

hex_digit-is_hex : (d : ℕ) → d < 16 → is_hex (hex_digit d) ≡ true
hex_digit-is_hex d h = ground arith

hex_digit-injective : (c d : ℕ) → c < 16 → d < 16 → hex_digit c ≡ hex_digit d → c ≡ d
hex_digit-injective c d hc hd e = ground arith

length-hex_text : (s : Bytes) → length (hex_text s) ≡ 2 * length s
unfolding hex_text
length-hex_text [] = refl
length-hex_text (b ∷ s) = omega (arith, length-hex_text s)

all_hex-hex_text : (s : Bytes) → AreBytes s → all_hex (hex_text s) ≡ true
unfolding hex_text
all_hex-hex_text [] h = refl
all_hex-hex_text (b ∷ s) h = ground (
  arith,
  hex_digit-is_hex (b / 16) (omega arith),
  hex_digit-is_hex (b % 16) (omega arith),
  all_hex-hex_text s h.1,
)

-- The fingerprint of a digest of 32 bytes passes the test that the server makes on the recipient
-- of an upload.
pub hex_text-recipient :
    (digest : Bytes)
    → AreBytes digest
    → length digest ≡ 32
    → is_bad_recipient (hex_text digest) ≡ false
unfolding is_bad_recipient
hex_text-recipient digest h n =
    go (hex_text digest) (length-hex_text digest) (all_hex-hex_text digest h)
  where
    go : (t : Bytes) → length t ≡ 2 * length digest → all_hex t ≡ true → is_bad_recipient t ≡ false
    go [] e a = refl
    go (c ∷ t) e a = let full : length (c ∷ t) ≡ 64 = omega arith in rw (full, a, is_bad_recipient)

-- Two certificates with different digests have different fingerprints.
pub hex_text-injective : (s t : Bytes) → AreBytes s → AreBytes t → hex_text s ≡ hex_text t → s ≡ t
unfolding hex_text
hex_text-injective [] [] h k e = refl
hex_text-injective [] (b ∷ t) h k e = cc
hex_text-injective (a ∷ s) [] h k e = cc
hex_text-injective (a ∷ s) (b ∷ t) h k e =
    let hi : hex_digit (a / 16) ≡ hex_digit (b / 16) = cc in
    let lo : hex_digit (a % 16) ≡ hex_digit (b % 16) = cc in
    let rest : hex_text s ≡ hex_text t = cc in
    let hi' = hex_digit-injective (a / 16) (b / 16) (omega arith) (omega arith) hi in
    let lo' = hex_digit-injective (a % 16) (b % 16) (omega arith) (omega arith) lo in
    let head : a ≡ b = omega arith in let tail = hex_text-injective s t h.1 k.1 rest in cc
