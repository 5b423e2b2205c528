-- ===== src/Targets/Print/Copied.antt =====
-- When src/targets/print.c says that all went well.
use gravelbox.Base.{
  ℕ, ◌+◌, ◌-◌, ◌≤◌, ◌<◌, ◌≡◌, refl, sym, ap, ◌∙◌, Bytes, List, [], ◌∷◌, ◌++◌, append_assoc,
  append-nil, map, Bool, true, ltb, some, Option-cases, Bool-cases, inl, inr, ◌⊎◌, All, arith,
}
use gravelbox.Utils.{Reply, done, errno, Reply-cases}
use gravelbox.Targets.Print.{File, sending, complaint, closing, Log, copy, show, show_all}

-- The descriptors that are closed in a history, and those that the files were given.
abbrev pub closed : Log → List ℕ
closed [] = []
closed (closing fd ∷ log) = fd ∷ closed log
closed (_ ∷ log) = closed log

abbrev pub given : List File → List ℕ
given [] = []
given (f ∷ fs) = elim f.opened [ done fd ↦ fd ∷ given fs | errno e ↦ given fs ]

abbrev pub total : List ℕ → ℕ
total [] = 0
total (n ∷ ns) = n + total ns

-- The first answers are numbers of bytes that come to `size` or more.
abbrev pub Covers : ℕ → List (Reply ℕ) → Type 0
Covers size rs =
    (ns : List ℕ) × (rest : List (Reply ℕ)) × (rs ≡ map done ns ++ rest) × (size ≤ total ns)

-- The file was opened, measured, and sent to its end.
abbrev pub Shown : File → Type 0
Shown f = (fd : ℕ) × (size : ℕ) × (f.opened ≡ done fd) × (f.sized ≡ done size) × Covers size f.sent

closed-append : (v w : Log) → closed (v ++ w) ≡ closed v ++ closed w
closed-append [] w = refl
closed-append (sending fd o c ∷ v) w = closed-append v w
closed-append (complaint t ∷ v) w = closed-append v w
closed-append (closing fd ∷ v) w = ap (λ l. fd ∷ l) (closed-append v w)

-- A loop that still has to send something takes the next answer.
Covers-done :
    (need n : ℕ) (rs : List (Reply ℕ)) → 0 < need → Covers need (done n ∷ rs) → Covers (need - n) rs
Covers-done need n rs h ([], rest, e, le) = absurd (omega (arith, h, le))
Covers-done need n rs h (k ∷ ns, rest, e, le) =
    let same : n ≡ k = cc (e) in (ns, rest, cc (e), omega (arith, le, same))

Covers-errno : (need e : ℕ) (rs : List (Reply ℕ)) → 0 < need → Covers need (errno e ∷ rs) → ⊥
Covers-errno need e rs h ([], rest, p, le) = absurd (omega (arith, h, le))
Covers-errno need e rs h (k ∷ ns, rest, p, le) = absurd (cc (p))

-- The loop closes nothing, and fails exactly where an error comes before the end of the file.
pub record Copied (name : Bytes) (need : ℕ) (failure : Bool) (rs : List (Reply ℕ)) (log : Log)
    (r : Bool × Log) : Type 0 where
  pub same : closed r.1 ≡ closed log
  pub ends : ((r.0 ≡ failure) × Covers need rs) ⊎ ((r.0 ≡ true) × (Covers need rs → ⊥))

loop_end-Copied :
    (name : Bytes) (need : ℕ) (failure : Bool) (rs : List (Reply ℕ)) (log : Log) (r : Bool × Log)
    → need ≡ 0
    → some (failure, log) ≡ some r
    → Copied name need failure rs log r
loop_end-Copied name need failure rs log r z h = record {
  same = ground arith;
  ends = inl (cc (h), ([], rs, refl, omega (arith, z)));
}

copy-Copied :
    (name : Bytes) (fd size offset : ℕ) (failure : Bool) (rs : List (Reply ℕ)) (log : Log)
    (r : Bool × Log)
    → copy name fd size offset failure rs log ≡ some r
    → Copied name (size - offset) failure rs log r
unfolding copy
copy-Copied name fd size offset failure [] log r h = elim (Bool-cases (ltb offset size)) [
  | inl y ↦ absurd (ground arith)
  | inr n ↦ loop_end-Copied name (size - offset) failure [] log r (ground arith) (ground arith)
]
copy-Copied name fd size offset failure (done n ∷ rs) log r h =
    elim (Bool-cases (ltb offset size)) [
      | inl y ↦
          let more : 0 < size - offset = ground arith in
          let log' = log ++ sending fd offset (size - offset) ∷ [] in
          let next = copy-Copied name fd size (offset + n) failure rs log' r (ground arith) in
          let less : size - offset - n ≡ size - (offset + n) = omega arith in
          record {
            same =
                next.same
                ∙ closed-append log (sending fd offset (size - offset) ∷ [])
                ∙ append-nil (closed log);
            ends = elim next.ends [
              | inl (e, (ns, rest, p, le)) ↦
                  inl (e, (n ∷ ns, rest, ap (λ l. done n ∷ l) p, omega (arith, le)))
              | inr (e, short) ↦
                  inr (e, λ c. short (rw less at (Covers-done (size - offset) n rs more c)))
            ];
          }
      | inr m ↦
          loop_end-Copied name (size - offset) failure (done n ∷ rs) log r (ground arith)
            (ground arith)
    ]
copy-Copied name fd size offset failure (errno e ∷ rs) log r h =
    elim (Bool-cases (ltb offset size)) [
      | inl y ↦
          let more : 0 < size - offset = ground arith in
          let tail : Log = sending fd offset (size - offset) ∷ complaint name ∷ [] in
          let same : (true, log ++ tail) ≡ r = ground arith in
          record {
            same = rw (← same) (closed-append log tail ∙ append-nil (closed log));
            ends = inr (cc (same), Covers-errno (size - offset) e rs more);
          }
      | inr m ↦
          loop_end-Copied name (size - offset) failure (errno e ∷ rs) log r (ground arith)
            (ground arith)
    ]

-- What a round, or all rounds, come to: the descriptors that were given are closed, and a failure
-- is kept or comes up.
pub record Went (fds : List ℕ) (Good : Type 0) (failure : Bool) (log : Log) (r : Bool × Log)
    : Type 0 where
  pub closes : closed r.1 ≡ closed log ++ fds
  pub ends : ((r.0 ≡ failure) × Good) ⊎ ((r.0 ≡ true) × (Good → ⊥))

show-Went :
    (f : File) (failure : Bool) (log : Log) (r : Bool × Log)
    → show f failure log ≡ some r
    → Went (given (f ∷ [])) (Shown f) failure log r
unfolding show
show-Went f failure log r h = elim (Reply-cases f.opened) [
  | inr (e, o) ↦
      let same : (true, log ++ complaint f.name ∷ []) ≡ r = ground arith in
      record {
        closes = rw (← same, o) (closed-append log (complaint f.name ∷ []));
        ends = inr (cc (same), λ (s : Shown f). absurd (cc (o, s.2)));
      }
  | inl (fd, o) ↦ elim (Reply-cases f.sized) [
    | inr (e, z) ↦
        let same : (true, log ++ complaint f.name ∷ closing fd ∷ []) ≡ r = ground arith in
        record {
          closes = rw (← same, o) (closed-append log (complaint f.name ∷ closing fd ∷ []));
          ends = inr (cc (same), λ (s : Shown f). absurd (cc (z, s.3)));
        }
    | inl (size, z) ↦ elim (Option-cases (copy f.name fd size 0 failure f.sent log)) [
      | inl e ↦ absurd (ground arith)
      | inr (c, e) ↦
          let same : (c.0, c.1 ++ closing fd ∷ []) ≡ r = ground arith in
          let copied = copy-Copied f.name fd size 0 failure f.sent log c e in
          let all : size - 0 ≡ size = omega arith in
          record {
            closes =
                rw (← same, o)
                  (closed-append c.1 (closing fd ∷ []) ∙ ap (λ l. l ++ fd ∷ []) copied.same);
            ends = elim copied.ends [
              | inl (k, covers) ↦ inl (cc (k, same), (fd, size, o, z, rw all at covers))
              | inr (k, short) ↦ inr (
                cc (k, same),
                λ (s : Shown f).
                    let sized : s.1 ≡ size = cc (z, s.3) in short (rw all (rw sized at s.4)),
              )
            ];
          }
    ]
  ]
]

given-cons : (f : File) (fs : List File) → given (f ∷ fs) ≡ given (f ∷ []) ++ given fs
given-cons f fs = elim (Reply-cases f.opened) [ inl (fd, o) ↦ rw o refl | inr (e, o) ↦ rw o refl ]

pub show_all-Went :
    (fs : List File) (failure : Bool) (log : Log) (r : Bool × Log)
    → show_all fs failure log ≡ some r
    → Went (given fs) (All Shown fs) failure log r
unfolding show_all
show_all-Went [] failure log r h =
    let same : (failure, log) ≡ r = cc (h) in
    record { closes = rw (← same) (sym (append-nil (closed log))); ends = inl (cc (same), tt) }
show_all-Went (f ∷ fs) failure log r h = elim (Option-cases (show f failure log)) [
  | inl e ↦ absurd (ground arith)
  | inr (c, e) ↦
      let one = show-Went f failure log c e in
      let others = show_all-Went fs c.0 c.1 r (ground arith) in
      record {
        closes =
            rw
              (
                given-cons f fs,
                ← append_assoc (closed log) (given (f ∷ [])) (given fs),
                ← one.closes,
              )
              others.closes;
        ends = elim one.ends [
          | inl (k, shown) ↦ elim others.ends [
            | inl (l, all) ↦ inl (l ∙ k, (shown, all))
            | inr (l, some_not) ↦ inr (l, λ (a : All Shown (f ∷ fs)). some_not a.1)
          ]
          | inr (k, not_shown) ↦ elim others.ends [
            | inl (l, all) ↦ inr (l ∙ k, λ (a : All Shown (f ∷ fs)). not_shown a.0)
            | inr (l, some_not) ↦ inr (l, λ (a : All Shown (f ∷ fs)). some_not a.1)
          ]
        ];
      }
]
