-- ===== src/Tests/Served.antt =====
-- A download from the shelf over the small platform, for which no call fails.
use mathlib.Core.Option.{some-injective}
use daemon_file_hosting.Base.{
  ℕ, ◌%◌, ◌≡◌, ◌≢◌, refl, sym, ◌∙◌, ap, true, ◌++◌, some, none, Bytes, codes, bytes_eq,
  bytes_eq_refl, length, arith, if◌then◌else◌,
}
use daemon_file_hosting.Cipher.Success.{Decrypts}
use daemon_file_hosting.Server.Download.{handle_download_request}
use daemon_file_hosting.Server.Download.Success.{ReadsFiles}
use daemon_file_hosting.Server.Store.{put}
use daemon_file_hosting.Server.Store.Laws.{AnswersQueries}
use daemon_file_hosting.Exchange.Texts.{text_reply}
use daemon_file_hosting.Exchange.Served.{held_text_is_sent}
use daemon_file_hosting.Tests.Platform.{
  Files, flip_evp, flip_IsGcm, flip_all, length-flip_all, copies, file_IsFileStore, is_some,
  pipe_KeepsMoving,
}
use daemon_file_hosting.Tests.Shelf.{
  P, laws, name_IsDocStore, request, owner, item, nothing, full, full-Holds, a_txt-IsName, greeting,
}

same_tag :
    (c : Bytes) (n m : ℕ)
    → n ≡ m
    → (if bytes_eq (copies 16 (n % 256)) (copies 16 (m % 256)) then some c else none) ≢ none
same_tag c n m e lost = cc (rw (e, bytes_eq_refl (copies 16 (m % 256))) at lost)

flip_Decrypts : Decrypts flip_evp flip_IsGcm
unfolding flip_IsGcm
flip_Decrypts = record {
  opens_ctx = λ e n. cc n;
  opens_cipher = λ c n. cc n;
  opens_key = λ c key iv n. cc n;
  opens_update = λ c s n e. cc e;
  takes_tag = λ c c1 c2 c3 key iv pt out e1 e2 e3.
      let text : flip_all (flip_all pt) ≡ c3 = ap (λ x. x.1) (some-injective _ _ e3) in
      let long : length pt ≡ length c3 =
        sym (length-flip_all pt) ∙ sym (length-flip_all (flip_all pt)) ∙ ap length text in
      same_tag c3 (length pt) (length c3) long;
  confirms = λ c c1 c2 c3 c4 key iv pt out e1 e2 e3 e4 n. cc n;
}

opens_file : (f : Files) (path text : Bytes) → f path ≡ some text → is_some (f path) ≡ true
opens_file f path text h = rw h refl

reads_files : ReadsFiles P laws.gcm laws.files
unfolding laws file_IsFileStore
reads_files = record {
  malloc_ok = λ h n. refl;
  opens = λ f path text h. opens_file f path text h;
  decrypts = flip_Decrypts;
}

answers : AnswersQueries P.mongo laws.docs
unfolding laws name_IsDocStore
answers = record { find_all = λ db name. refl }

held_text_is_sent_example :
    laws.stream.sent (handle_download_request P (request 7) owner full).1.conn
    ≡ laws.stream.sent full.conn ++ text_reply P laws.stream pipe_KeepsMoving 7 greeting
held_text_is_sent_example =
    held_text_is_sent P laws pipe_KeepsMoving reads_files answers (request 7) owner greeting 7
      (put (codes "a.txt") item nothing) full a_txt-IsName full-Holds refl refl (omega arith)
