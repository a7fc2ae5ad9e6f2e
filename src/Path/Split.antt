-- ===== src/Path/Split.antt =====
-- How `base_name`, `stem` and `extension` cut a path.
use daemon_file_hosting.Base.{
  ℕ, ◌-◌, ◌≡◌, ◌≢◌, refl, sym, ◌∙◌, ap, inl, inr, [], ◌∷◌, ◌++◌, Option, none, some, some, Bytes,
  strrchr, length, take, length-append, take-append_self, arith, ◌==◌, if◌then◌else◌, Option-cases,
  Bool-cases, append-nil,
}
use daemon_file_hosting.Path.{base_name, stem, extension}

-- What `strrchr` finds: the suffix at the last occurrence.
pub record IsLast (c : ℕ) (s t : Bytes) : Type 0 where
  pub front : Bytes
  pub rest : Bytes
  pub split : s ≡ front ++ t
  pub head : t ≡ c ∷ rest
  pub last : strrchr rest c ≡ none

IsLast-cons : {c : ℕ} {s t : Bytes} (x : ℕ) → IsLast c s t → IsLast c (x ∷ s) t
IsLast-cons x l = record {
  front = x ∷ l.front;
  rest = l.rest;
  split = ap (λ r. x ∷ r) l.split;
  head = l.head;
  last = l.last;
}

IsLast-here :
    (x c : ℕ) (s t : Bytes)
    → strrchr s c ≡ none
    → (if x == c then some (x ∷ s) else none) ≡ some t
    → IsLast c (x ∷ s) t
IsLast-here x c s t e h = record {
  front = [];
  rest = s;
  split = ground arith;
  head = ground arith;
  last = e;
}

pub strrchr-IsLast : (s : Bytes) (c : ℕ) {t : Bytes} → strrchr s c ≡ some t → IsLast c s t
strrchr-IsLast [] c h = cc
strrchr-IsLast (x ∷ s) c {t} h = elim (Option-cases (strrchr s c)) [
  | inr (u, e) ↦ IsLast-cons x (strrchr-IsLast s c {t = t} (e ∙ (rw e at h)))
  | inl e ↦ IsLast-here x c s t e (rw e at h)
]

-- A suffix as long as the whole text is the whole text.
append-length-eq : (a t : Bytes) → length (a ++ t) ≡ length t → a ++ t ≡ t
append-length-eq [] t h = refl
append-length-eq (x ∷ a) t h = absurd (omega (arith, length-append a t))

take-front : (a t : Bytes) → take (length (a ++ t) - length t) (a ++ t) ≡ a
take-front a t =
    let e : length (a ++ t) - length t ≡ length a = omega (arith, length-append {0} a t) in
    rw e (take-append_self a t)

rejoin :
    (a t f : Bytes)
    → f ≡ a ++ t
    → t ≢ f
    → take (length f - length t) f ++ (if length t == length f then [] else t) ≡ f
rejoin a t f e n = elim (Bool-cases (length t == length f)) [
  | inl same ↦ absurd (n (sym (e ∙ append-length-eq a t (ap length (sym e) ∙ ground arith))))
  | inr differ ↦ rw differ (ap (λ b. b ++ t) (rw e (take-front a t)) ∙ sym e)
]

-- Unless the last dot is the first character of the base name, the name without its extension
-- and the extension together are the base name.
pub stem-append-extension :
    (path : Bytes)
    → strrchr (base_name path) b'.' ≢ some (base_name path)
    → stem path ++ extension path ≡ base_name path
unfolding stem extension
stem-append-extension path h = go (base_name path) (strrchr (base_name path) b'.') refl h
  where
    go :
        (f : Bytes) (o : Option Bytes)
        → strrchr f b'.' ≡ o
        → o ≢ some f
        → (elim o [ none ↦ f | some dot ↦ take (length f - length dot) f ])
            ++ (elim o [ none ↦ [] | some dot ↦ if length dot == length f then [] else dot ])
          ≡ f
    go f none e n = append-nil f
    go f (some dot) e n =
        let l = strrchr-IsLast f b'.' e in rejoin l.front dot f l.split (λ same. n (ap some same))

-- When the last dot is the first character of the base name, as in ".profile", both parts are
-- empty: neither keeps anything of the name.
pub dot_file_lost :
    (path : Bytes)
    → strrchr (base_name path) b'.' ≡ some (base_name path)
    → (stem path ≡ []) × (extension path ≡ [])
unfolding stem extension
dot_file_lost path h = (rw (h, stem) (cut_all (base_name path)), rw (h, extension) (ground arith))
  where
    cut_all : (f : Bytes) → take (length f - length f) f ≡ []
    cut_all f = let e : length f - length f ≡ 0 = omega arith in rw e
