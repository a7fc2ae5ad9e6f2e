-- ===== src/Client/Receive.antt =====
-- What a download leaves in the client's file.
use daemon_file_hosting.Base.{
  ℕ, zero, suc, ◌+◌, ◌-◌, ◌≤◌, ◌<◌, ◌≡◌, refl, sym, ◌∙◌, ap, inl, inr, Bool, true, false, ◌++◌, [],
  Option, none, some, Bytes, length, length-append, append_assoc, append-nil, arith, ltb, ltb→lt,
  ◌==◌, Bool-cases, Option-cases,
}
use daemon_file_hosting.Base.Int.{pos}
use daemon_file_hosting.External.{Tls}
use daemon_file_hosting.External.Laws.{IsStream}
use daemon_file_hosting.Transfer.{arrived}
use daemon_file_hosting.Transfer.Received.{arrived-pos}
use daemon_file_hosting.Client.{LocalDisk, State, piece_size, download_loop, receive_body}

-- Files as their contents by path: opening for writing leaves an empty file, and a write whose
-- count is the length of its text puts the text at the end.
pub record IsLocalStore (L : LocalDisk) : Type 0 where
  pub contents : L.Files → Bytes → Option Bytes
  pub open_write-empty :
      (f : L.Files) (path : Bytes)
      → (L.open_write f path).0 ≡ true
      → contents (L.open_write f path).1 path ≡ some []
  pub append-whole :
      (f : L.Files) (path old text : Bytes)
      → contents f path ≡ some old
      → (L.append f path text).0 ≡ length text
      → contents (L.append f path text).1 path ≡ some (old ++ text)

module _ (T : Tls) (L : LocalDisk) where
  abbrev pub round : ℕ → ℕ → T.Conn → Option Bytes × T.Conn
  round size total c = T.ssl_read c (pos (piece_size (size - total)))

  pub download_loop-done :
      (fuel : ℕ) (path : Bytes) (size total : ℕ) (c : T.Conn) (f : L.Files)
      → ltb total size ≡ false
      → download_loop T L (suc fuel) path size total (c, f) ≡ (true, (c, f))
  unfolding download_loop
  download_loop-done fuel path size total c f h = rw (h, download_loop)

  pub download_loop-stop :
      (fuel : ℕ) (path : Bytes) (size total : ℕ) (c : T.Conn) (f : L.Files)
      → ltb total size ≡ true
      → arrived (round size total c).0 ≡ none
      → download_loop T L (suc fuel) path size total (c, f) ≡ (false, ((round size total c).1, f))
  unfolding download_loop
  download_loop-stop fuel path size total c f h k = rw (h, k, download_loop)

  pub download_loop-full :
      (fuel : ℕ) (path : Bytes) (size total : ℕ) (c : T.Conn) (f : L.Files) {piece : Bytes}
      → ltb total size ≡ true
      → arrived (round size total c).0 ≡ some piece
      → ((L.append f path piece).0 == length piece) ≡ false
      → download_loop T L (suc fuel) path size total (c, f)
        ≡ (false, ((round size total c).1, (L.append f path piece).1))
  unfolding download_loop
  download_loop-full fuel path size total c f h k b = rw (h, k, b, download_loop)

  pub download_loop-more :
      (fuel : ℕ) (path : Bytes) (size total : ℕ) (c : T.Conn) (f : L.Files) {piece : Bytes}
      → ltb total size ≡ true
      → arrived (round size total c).0 ≡ some piece
      → ((L.append f path piece).0 == length piece) ≡ true
      → download_loop T L (suc fuel) path size total (c, f)
        ≡ download_loop T L fuel path size
            (total + length piece)
            ((round size total c).1, (L.append f path piece).1)
  unfolding download_loop
  download_loop-more fuel path size total c f h k b = rw (h, k, b, download_loop)

  -- The loop ends for every behaviour of the connection and the disk: beyond the bytes that are
  -- missing, fuel changes nothing, as long as there is some.
  pub download_loop-fuel :
      (fuel more : ℕ) (path : Bytes) (size total : ℕ) (s : State T L)
      → size < fuel + total
      → size < more + total
      → 0 < fuel
      → 0 < more
      → download_loop T L fuel path size total s ≡ download_loop T L more path size total s
  download_loop-fuel zero more path size total s h k p q = absurd (omega arith)
  download_loop-fuel (suc fuel) zero path size total s h k p q = absurd (omega arith)
  download_loop-fuel (suc fuel) (suc more) path size total (c, f) h k p q =
      elim (Bool-cases (ltb total size)) [
        | inr done ↦
            download_loop-done fuel path size total c f done
            ∙ sym (download_loop-done more path size total c f done)
        | inl again ↦ elim (Option-cases (arrived (round size total c).0)) [
          | inl stop ↦
              download_loop-stop fuel path size total c f again stop
              ∙ sym (download_loop-stop more path size total c f again stop)
          | inr (piece, e) ↦ elim (Bool-cases ((L.append f path piece).0 == length piece)) [
            | inr full ↦
                download_loop-full fuel path size total c f again e full
                ∙ sym (download_loop-full more path size total c f again e full)
            | inl whole ↦
                let room = ltb→lt total size again in
                let some_came = arrived-pos (round size total c).0 piece e in
                download_loop-more fuel path size total c f again e whole
                ∙ download_loop-fuel fuel more path size (total + length piece) _ (omega arith)
                    (omega arith) (omega arith) (omega arith)
                ∙ sym (download_loop-more more path size total c f again e whole)
          ]
        ]
      ]

pub piece_size-le : (missing : ℕ) → piece_size missing ≤ missing
piece_size-le missing = ground arith

module _ (T : Tls) (L : LocalDisk) (S : IsStream T) (F : IsLocalStore L) where
  -- From `old` in the file and `all` to come, a call that comes to its end has moved exactly the
  -- next `missing` bytes to the end of the file.
  abbrev pub Moved : ℕ → Bytes → Bytes → Bytes → Bool × State T L → Type 0
  Moved missing path old all r =
      r.0 ≡ true
      → (text : Bytes) × (length text ≡ missing)
        × (all ≡ text ++ S.incoming r.1.0)
        × (F.contents r.1.1 path ≡ some (old ++ text))

  pub download_loop-Moved :
      (fuel : ℕ) (path : Bytes) (size total : ℕ) (c : T.Conn) (f : L.Files) (old : Bytes)
      → F.contents f path ≡ some old
      → Moved (size - total) path old (S.incoming c) (download_loop T L fuel path size total (c, f))
  unfolding download_loop
  download_loop-Moved zero path size total c f old h = λ t. cc t
  download_loop-Moved (suc fuel) path size total c f old h = elim (Bool-cases (ltb total size)) [
    | inr done ↦
        rw (download_loop-done T L fuel path size total c f done)
          (λ t. ([], ground arith, refl, h ∙ ap (λ b. some b) (sym (append-nil old))))
    | inl again ↦ elim (Option-cases (arrived (round T L size total c).0)) [
      | inl stop ↦ rw (download_loop-stop T L fuel path size total c f again stop) (λ t. cc t)
      | inr (piece, e) ↦ elim (Bool-cases ((L.append f path piece).0 == length piece)) [
        | inr full ↦ rw (download_loop-full T L fuel path size total c f again e full) (λ t. cc t)
        | inl whole ↦ rw (download_loop-more T L fuel path size total c f again e whole) (λ t.
            let (fits, next) =
              S.read_some c (piece_size (size - total)) piece (pos (piece_size (size - total))) refl
                e in
            let counted : (L.append f path piece).0 ≡ length piece = ground arith in
            let (text, len, came, held) =
              download_loop-Moved fuel path size (total + length piece) (round T L size total c).1
                (L.append f path piece).1 (old ++ piece) (F.append-whole f path old piece h counted)
                t in
            let small = piece_size-le (size - total) in
            (
              piece ++ text,
              omega (arith, length-append piece text),
              next ∙ ap (λ r. piece ++ r) came ∙ sym (append_assoc piece text _),
              held ∙ ap (λ b. some b) (append_assoc old piece text),
            ))
      ]
    ]
  ]

  -- A download that succeeds leaves in the file exactly the next bytes that come in, as many as the
  -- announced size less the length of the file that was there before.
  pub receive_body-keeps :
      (path : Bytes) (offset size : ℕ) (c : T.Conn) (f : L.Files)
      → (receive_body T L path offset (pos size) (c, f)).0 ≡ true
      → (text : Bytes) × (length text ≡ size - offset)
        × (S.incoming c ≡ text ++ S.incoming (receive_body T L path offset (pos size) (c, f)).1.0)
        × (F.contents (receive_body T L path offset (pos size) (c, f)).1.1 path ≡ some text)
  unfolding receive_body
  receive_body-keeps path offset zero c f t = absurd (cc t)
  receive_body-keeps path offset (suc n) c f t = elim (Bool-cases (L.open_write f path).0) [
    | inr no_file ↦ absurd (cc (rw (no_file, receive_body) at t))
    | inl opened ↦
        rw (opened, receive_body)
          (download_loop-Moved (suc n + 1) path (suc n) offset c (L.open_write f path).1 []
            (F.open_write-empty f path opened) (rw (opened, receive_body) at t))
  ]
