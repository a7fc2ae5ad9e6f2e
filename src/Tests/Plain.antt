-- ===== src/Tests/Plain.antt =====
-- A plain socket that carries two bytes by a call and is interrupted a few times.
use daemon_file_hosting.Base.{
  ℕ, zero, suc, ◌≤◌, ◌<◌, ◌≡◌, refl, sym, subst, ap, [], ◌∷◌, ◌++◌, Bytes, codes, length,
  length-take, take, drop, take-append-drop, arith, ◌∙◌,
}
use daemon_file_hosting.Plain.{
  Sent, wrote, send_interrupted, send_failed, Came, bytes, recv_interrupted, recv_failed, Sockets,
  send_all, recv_all,
}
use daemon_file_hosting.Plain.Delivery.{
  IsPlainStream, IsCalming, Ends, Takes, send_all-Ends, recv_all-Takes,
}

-- What has gone out, what is to come, and the interruptions that are to come.
pub record Line : Type 0 where
  pub gone : Bytes
  pub coming : Bytes
  pub unrest : ℕ

abbrev two : ℕ → ℕ
two zero = 0
two (suc zero) = 1
two (suc (suc n)) = 2

abbrev send_line : ℕ → Line → Bytes → Sent × Line
send_line zero c buf = (
  wrote (two (length buf)),
  record c { gone = c.gone ++ take (two (length buf)) buf; unrest = 0 },
)
send_line (suc n) c buf = (send_interrupted, record c { unrest = n })

abbrev recv_line : ℕ → Line → ℕ → Came × Line
recv_line zero c n =
    (bytes (take (two n) c.coming), record c { coming = drop (two n) c.coming; unrest = 0 })
recv_line (suc k) c n = (recv_interrupted, record c { unrest = k })

abbrev line_sockets : Sockets
line_sockets = record {
  Conn = Line;
  send = λ c buf. send_line c.unrest c buf;
  recv = λ c n. recv_line c.unrest c n;
}

two-le : (n : ℕ) → two n ≤ n
two-le zero = omega arith
two-le (suc zero) = omega arith
two-le (suc (suc n)) = omega arith

count_of : Sent → ℕ
count_of (wrote n) = n
count_of send_interrupted = 0
count_of send_failed = 0

text_in : Came → Bytes
text_in (bytes s) = s
text_in recv_interrupted = []
text_in recv_failed = []

send_line-some :
    (u : ℕ) (c : Line) (buf : Bytes) (n : ℕ)
    → (send_line u c buf).0 ≡ wrote n
    → (n ≤ length buf) × ((send_line u c buf).1.gone ≡ c.gone ++ take n buf)
unfolding count_of
send_line-some zero c buf n e =
    let same : two (length buf) ≡ n = ap count_of e in
    (omega (arith, sym same, two-le (length buf)), ap (λ k. c.gone ++ take k buf) same)
send_line-some (suc u) c buf n e = cc e

send_line-none :
    (u : ℕ) (c : Line) (buf : Bytes)
    → (send_line u c buf).0 ≡ send_interrupted
    → (send_line u c buf).1.gone ≡ c.gone
send_line-none zero c buf e = cc e
send_line-none (suc u) c buf e = refl

recv_line-some :
    (u : ℕ) (c : Line) (n : ℕ) (s : Bytes)
    → (recv_line u c n).0 ≡ bytes s
    → (length s ≤ n) × (c.coming ≡ s ++ (recv_line u c n).1.coming)
unfolding text_in
recv_line-some zero c n s e =
    let same : take (two n) c.coming ≡ s = ap text_in e in
    (
      subst (λ (t : Bytes). length t ≤ n) same
          (omega (arith, length-take (two n) c.coming, two-le n)),
      sym (take-append-drop (two n) c.coming) ∙ ap (λ t. t ++ drop (two n) c.coming) same,
    )
recv_line-some (suc u) c n s e = cc e

recv_line-none :
    (u : ℕ) (c : Line) (n : ℕ)
    → (recv_line u c n).0 ≡ recv_interrupted
    → (recv_line u c n).1.coming ≡ c.coming
recv_line-none zero c n e = cc e
recv_line-none (suc u) c n e = refl

unfoldable line_IsPlainStream : IsPlainStream line_sockets
line_IsPlainStream = record {
  sent = λ c. c.gone;
  incoming = λ c. c.coming;
  send_some = λ c buf n e. send_line-some c.unrest c buf n e;
  send_none = λ c buf e. send_line-none c.unrest c buf e;
  recv_some = λ c n s e. recv_line-some c.unrest c n s e;
  recv_none = λ c n e. recv_line-none c.unrest c n e;
}

send_line-calms :
    (u : ℕ) (c : Line) (buf : Bytes)
    → (send_line u c buf).0 ≡ send_interrupted
    → (send_line u c buf).1.unrest < u
send_line-calms zero c buf e = cc e
send_line-calms (suc u) c buf e = omega arith

send_line-moves :
    (u : ℕ) (c : Line) (b : ℕ) (buf : Bytes)
    → (send_line u c (b ∷ buf)).0 ≡ wrote 0
    → (send_line u c (b ∷ buf)).1.unrest < u
unfolding count_of
send_line-moves zero c b [] e = let no : 1 ≡ 0 = ap count_of e in absurd (omega (arith, no))
send_line-moves zero c b (d ∷ buf) e = let no : 2 ≡ 0 = ap count_of e in absurd (omega (arith, no))
send_line-moves (suc u) c b buf e = cc e

send_line-keeps : (u : ℕ) (c : Line) (buf : Bytes) → (send_line u c buf).1.unrest ≤ u
send_line-keeps zero c buf = omega arith
send_line-keeps (suc u) c buf = omega arith

recv_line-calms :
    (u : ℕ) (c : Line) (n : ℕ)
    → (recv_line u c n).0 ≡ recv_interrupted
    → (recv_line u c n).1.unrest < u
recv_line-calms zero c n e = cc e
recv_line-calms (suc u) c n e = omega arith

recv_line-keeps : (u : ℕ) (c : Line) (n : ℕ) → (recv_line u c n).1.unrest ≤ u
recv_line-keeps zero c n = omega arith
recv_line-keeps (suc u) c n = omega arith

unfoldable line_IsCalming : IsCalming line_sockets
line_IsCalming = record {
  unrest = λ c. c.unrest;
  send_calms = λ c buf e. send_line-calms c.unrest c buf e;
  send_nothing_calms = λ c b buf e. send_line-moves c.unrest c b buf e;
  send_keeps = λ c buf n e. send_line-keeps c.unrest c buf;
  recv_calms = λ c n e. recv_line-calms c.unrest c n e;
  recv_keeps = λ c n s e. recv_line-keeps c.unrest c n;
}

abbrev line : Line
line = record { gone = []; coming = codes "hello"; unrest = 3 }

send_all-Ends_example :
    Ends line_sockets line_IsPlainStream line_IsCalming
      (codes "abc")
      line
      (send_all line_sockets 7 (codes "abc") line)
unfolding line_IsCalming
send_all-Ends_example =
    send_all-Ends line_sockets line_IsPlainStream line_IsCalming 7 (codes "abc") line (omega arith)

recv_all-Takes_example :
    Takes line_sockets line_IsPlainStream line_IsCalming 4 []
      (codes "hello")
      (recv_all line_sockets 8 4 line)
unfolding line_IsCalming line_IsPlainStream
recv_all-Takes_example =
    recv_all-Takes line_sockets line_IsPlainStream line_IsCalming 8 4 line (omega arith)
