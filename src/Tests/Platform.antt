-- ===== src/Tests/Platform.antt =====
-- A small platform for the external code, and that it has the behaviour that theorems assume.
use mathlib.Core.Option.{some-injective}
use daemon_file_hosting.Base.{
  ℕ, zero, suc, ◌+◌, ◌-◌, ◌*◌, ◌%◌, ◌≤◌, ◌<◌, ◌≡◌, refl, sym, ◌∙◌, ap, Bool, true, false, [], ◌∷◌,
  ◌++◌, Option, none, some, Bytes, bytes_eq, bytes_eq_refl, length, take, drop, take-append-drop,
  take-all, length-take, append_assoc, append-nil, ltb, if◌then◌else◌, arith,
}
use daemon_file_hosting.Base.Int.{ℤ, pos, negsuc}
use daemon_file_hosting.External.{Tls, Disk, Mongo, Evp, System, Blake3, Platform}
use daemon_file_hosting.External.Laws.{IsStreaming, IsStream, CountsContexts, IsGcm, IsFileStore}
use daemon_file_hosting.Transfer.{progress, arrived}
use daemon_file_hosting.Transfer.Sent.{KeepsMoving}
use daemon_file_hosting.Transfer.Received.{KeepsComing}

-- A connection that carries at most three bytes by a call.
pub record Pipe : Type 0 where
  pub sent : Bytes
  pub incoming : Bytes

abbrev pub three_at_most : ℤ → ℕ
three_at_most (pos n) = if ltb n 3 then n else 3
three_at_most (negsuc n) = 0

abbrev pub pipe_tls : Tls
pipe_tls = record {
  Conn = Pipe;
  ssl_new = λ c. (true, c);
  ssl_accept = λ c. (true, c);
  peer_digest = λ c. some (1 ∷ 2 ∷ []);
  ssl_shutdown = λ c. c;
  ssl_write = λ c buf num.
      let part = take (three_at_most num) buf in
      (pos (length part), record c { sent = c.sent ++ part });
  ssl_read = λ c num.
      let k = three_at_most num in
      (some (take k c.incoming), record c { incoming = drop k c.incoming });
}

pub progress-some : (n k : ℕ) → progress (pos n) ≡ some k → n ≡ k
progress-some zero k h = cc h
progress-some (suc n) k h = some-injective _ _ h

pub arrived-some : (t s : Bytes) → arrived (some t) ≡ some s → t ≡ s
arrived-some [] s h = cc h
arrived-some (b ∷ t) s h = some-injective _ _ h

pub progress-none : (n : ℕ) → progress (pos n) ≡ none → n ≡ 0
progress-none zero h = refl
progress-none (suc n) h = cc h

pub length-zero : (s : Bytes) → length s ≡ 0 → s ≡ []
length-zero [] h = refl
length-zero (b ∷ s) h = absurd (omega (arith, h))

pub take-length-take : (m : ℕ) (s : Bytes) → take (length (take m s)) s ≡ take m s
take-length-take zero s = refl
take-length-take (suc m) [] = refl
take-length-take (suc m) (b ∷ s) = ap (λ t. b ∷ t) (take-length-take m s)

pub length-part :
    (num : ℤ) (n : ℕ) (s : Bytes) → num ≡ pos n → length (take (three_at_most num) s) ≤ n
length-part num n s e =
    let bound : three_at_most (pos n) ≤ n = ground arith in
    rw e (omega (arith, bound, length-take (three_at_most (pos n)) s))

unfoldable pub pipe_IsStream : IsStream pipe_tls
pipe_IsStream = record {
  sent = λ c. c.sent;
  incoming = λ c. c.incoming;
  write_some = λ c buf n k num e h p.
      let k_is : length (take (three_at_most num) buf) ≡ k = progress-some _ k p in
      (
        rw⁻¹ k_is (length-part num n buf e),
        ap (λ t. c.sent ++ t)
            (sym (take-length-take (three_at_most num) buf) ∙ ap (λ j. take j buf) k_is),
      );
  write_none = λ c buf num p.
      ap (λ t. c.sent ++ t) (length-zero (take (three_at_most num) buf) (progress-none _ p))
      ∙ append-nil c.sent;
  read_some = λ c n s num e p.
      let s_is : take (three_at_most num) c.incoming ≡ s = arrived-some _ s p in
      (
        rw⁻¹ s_is (length-part num n c.incoming e),
        sym (take-append-drop (three_at_most num) c.incoming)
            ∙ ap (λ t. t ++ drop (three_at_most num) c.incoming) s_is,
      );
  write-incoming = λ c buf num. refl;
  read-sent = λ c num. refl;
}

pub part-pos :
    (k : ℕ) (num : ℤ) (s : Bytes)
    → num ≡ pos (suc k)
    → 0 < length s
    → 0 < length (take (three_at_most num) s)
part-pos k num s e some_bytes =
    let one : 0 < three_at_most (pos (suc k)) = ground arith in
    rw e (omega (arith, one, length-take (three_at_most (pos (suc k))) s))

pub arrived-none : (t : Bytes) → arrived (some t) ≡ none → length t ≡ 0
arrived-none [] h = refl
arrived-none (b ∷ t) h = cc h

pub pipe_KeepsMoving : KeepsMoving pipe_tls
pipe_KeepsMoving = record {
  write_moves = λ c buf k num e fits stop.
      let some_bytes = part-pos k num buf e (omega arith) in
      let no_bytes = progress-none _ stop in absurd (omega (arith, some_bytes, no_bytes));
}

pub pipe_KeepsComing : KeepsComing pipe_tls pipe_IsStream
unfolding pipe_IsStream
pipe_KeepsComing = record {
  read_moves = λ c k num e there stop.
      let some_bytes = part-pos k num c.incoming e there in
      let no_bytes = arrived-none _ stop in absurd (omega (arith, some_bytes, no_bytes));
}

abbrev pub Files : Type 0
Files = Bytes → Option Bytes

abbrev pub put : Files → Bytes → Bytes → Files
put f path text other = if bytes_eq other path then some text else f other

abbrev pub size_of : Option Bytes → Option ℕ
size_of none = none
size_of (some text) = some (length text)

abbrev pub text_of : Option Bytes → Bytes
text_of none = []
text_of (some text) = text

abbrev pub is_some : Option Bytes → Bool
is_some none = false
is_some (some _) = true

abbrev pub file_disk : Disk
file_disk = record {
  Files = Files;
  fopen_write = λ f path. (true, put f path []);
  fwrite = λ f path text. (length text, put f path (text_of (f path) ++ text));
  fclose = λ f path. (true, f);
  stat = λ f path. size_of (f path);
  is_regular = λ f path. some (is_some (f path));
  fopen_read = λ f path. is_some (f path);
  fread = λ f path n. take n (text_of (f path));
}

unfoldable pub file_IsFileStore : IsFileStore file_disk
file_IsFileStore = record {
  contents = λ f path. f path;
  write_whole = λ f path text o w c. rw (bytes_eq_refl path);
  stat-contents = λ f path text h. rw h;
  fread-contents = λ f path text h. rw h (take-all (length text) text (omega arith));
}

-- A cipher that changes the last bit of every byte.
abbrev pub flip : ℕ → ℕ
flip b = b + 1 - 2 * (b % 2)

abbrev pub flip_all : Bytes → Bytes
flip_all [] = []
flip_all (b ∷ s) = flip b ∷ flip_all s

pub flip_all-flip_all : (s : Bytes) → flip_all (flip_all s) ≡ s
flip_all-flip_all [] = refl
flip_all-flip_all (b ∷ s) =
    let back : flip (flip b) ≡ b = omega arith in λ i. back i ∷ flip_all-flip_all s i

pub length-flip_all : (s : Bytes) → length (flip_all s) ≡ length s
length-flip_all [] = refl
length-flip_all (b ∷ s) = ap suc (length-flip_all s)

abbrev pub copies : ℕ → ℕ → Bytes
copies zero b = []
copies (suc n) b = b ∷ copies n b

-- A context is the text that it was given; an engine the number of contexts.
abbrev pub flip_evp : Evp
flip_evp = record {
  Engine = ℕ;
  Ctx = Bytes;
  ctx_new = λ e. (some [], e + 1);
  ctx_free = λ e c. e - 1;
  encrypt_init_cipher = λ c. some [];
  encrypt_init_key = λ c key iv. some c;
  encrypt_update = λ c s n. some (flip_all s, s);
  encrypt_final = λ c. some ([], c);
  get_tag = λ c n. some (copies n (length c % 256));
  decrypt_init_cipher = λ c. some [];
  decrypt_init_key = λ c key iv. some c;
  decrypt_update = λ c s n. some (flip_all s, flip_all s);
  set_tag = λ c n tag. if bytes_eq tag (copies n (length c % 256)) then some c else none;
  decrypt_final = λ c. some ([], c);
}

unfoldable pub flip_CountsContexts : CountsContexts flip_evp
flip_CountsContexts = record {
  live = λ e. e;
  live-ctx_new = λ e c h. refl;
  live-ctx_new_failed = λ e h. cc h;
  live-ctx_free = λ e c. refl;
}

unfoldable pub flip_IsGcm : IsGcm flip_evp
flip_IsGcm = record {
  gcm_ciphertext = λ key iv s. flip_all s;
  gcm_tag = λ key iv s. copies 16 (length s % 256);
  seals = λ c c1 c2 c3 c4 key iv s out rest tag h1 h2 h3 h4 h5.
      let first : c1 ≡ [] = sym (some-injective _ _ h1) in
      let pair3 : (flip_all s, s) ≡ (out, c3) = some-injective _ _ h3 in
      let pair4 : ([], c3) ≡ (rest, c4) = some-injective _ _ h4 in
      let text : s ≡ c4 = ap (λ x. x.1) pair3 ∙ ap (λ x. x.1) pair4 in
      (
        sym (λ i. (pair3 i).0 ++ (pair4 i).0) ∙ append-nil (flip_all s),
        sym (some-injective _ _ h5) ∙ ap (λ t. copies 16 (length t % 256)) (sym text),
      );
  length-gcm_tag = λ key iv s. refl;
  length-gcm_ciphertext = λ key iv s. length-flip_all s;
  unseals = λ c c1 c2 c3 c4 c5 key iv s out rest h1 h2 h3 h4 h5.
      let pair3 : (flip_all (flip_all s), flip_all (flip_all s)) ≡ (out, c3) =
        some-injective _ _ h3 in
      let pair5 : ([], c4) ≡ (rest, c5) = some-injective _ _ h5 in
      sym (λ i. (pair3 i).0 ++ (pair5 i).0)
      ∙ append-nil (flip_all (flip_all s))
      ∙ flip_all-flip_all s;
}

abbrev pub plain_system : System
plain_system = record {
  Entropy = ℕ;
  rand_bytes = λ e n. (some (copies n e), e + 1);
  Heap = ℕ;
  malloc = λ h n. (true, h + 1);
  realloc = λ h n. (true, h + 1);
  Time = ℕ;
  gettimeofday = λ t. (t, 5000, t + 1);
  monotonic = λ t. (t, t + 1);
}

-- A hash that keeps the first bytes of a text.
abbrev pub first_bytes : Blake3
first_bytes = record {
  Hasher = Bytes;
  hasher_init = [];
  hasher_update = λ h s. h ++ s;
  hasher_finalize = λ h n. take n h;
}

unfoldable pub first_bytes-IsStreaming : IsStreaming first_bytes
first_bytes-IsStreaming = record {
  update-nil = λ h. append-nil h;
  update-append = λ h a b. append_assoc h a b;
}

-- All of it, over some database.
abbrev pub platform : Mongo → Platform
platform mongo = record {
  tls = pipe_tls;
  disk = file_disk;
  mongo = mongo;
  evp = flip_evp;
  system = plain_system;
  blake3 = first_bytes;
}
