-- ===== src/Syntaxes/Grammar/Words.antt =====
-- The machine of a grammar is not in its error state exactly when some word of the language begins with
-- the bytes read.
use libdomain.Prelude.{
  ℕ, ◌≡◌, ◌↔◌, ◌⊎◌, ◌&&◌, refl, sym, ap, ◌∙◌, inl, inr, true, [], ◌∷◌, ◌++◌, if◌then◌else◌, leb,
  CString, Bool-cases, arith,
}
use libdomain.Syntaxes.Grammar.{
  Grammar, empty, epsilon, range, seq, alt, star, Star, stop, more, Matches, is_empty, is_epsilon,
  join, either, nullable, after, has_word, scans,
}

is_empty-path : (a : Grammar) → is_empty a ≡ true → a ≡ empty
is_empty-path empty h = refl
is_empty-path epsilon h = cc
is_empty-path (range lo hi) h = cc
is_empty-path (seq a b) h = cc
is_empty-path (alt a b) h = cc
is_empty-path (star a) h = cc

is_epsilon-path : (a : Grammar) → is_epsilon a ≡ true → a ≡ epsilon
is_epsilon-path empty h = cc
is_epsilon-path epsilon h = refl
is_epsilon-path (range lo hi) h = cc
is_epsilon-path (seq a b) h = cc
is_epsilon-path (alt a b) h = cc
is_epsilon-path (star a) h = cc

either-Matches :
    (a b : Grammar) (v : CString) → Matches (either a b) v ↔ (Matches a v ⊎ Matches b v)
either-Matches a b v = elim (Bool-cases (is_empty a)) [
  | inl none_a ↦
      let e = is_empty-path a none_a in
      rw e ((λ m. inr m), (λ o. elim o [ inl m ↦ absurd m | inr m ↦ m ]))
  | inr some_a ↦ elim (Bool-cases (is_empty b)) [
    | inl none_b ↦
        let e = is_empty-path b none_b in
        rw (some_a, e) ((λ m. inl m), (λ o. elim o [ inl m ↦ m | inr m ↦ absurd m ]))
    | inr some_b ↦ rw (some_a, some_b) ((λ m. m), (λ m. m))
  ]
]

join-Matches : (a b : Grammar) (v : CString) → Matches (join a b) v ↔ Matches (seq a b) v
join-Matches a b v = elim (Bool-cases (is_empty a)) [
  | inl none_a ↦
      let e = is_empty-path a none_a in rw e ((λ m. absurd m), (λ (x, y, p, m, n). absurd m))
  | inr some_a ↦ elim (Bool-cases (is_epsilon a)) [
    | inl one ↦
        let e = is_epsilon-path a one in
        rw e ((λ m. ([], v, refl, refl, m)), (λ (x, y, p, m, n). rw (p, m) n))
    | inr other ↦ rw (some_a, other) ((λ m. m), (λ m. m))
  ]
]

pub append-eq-nil : (x y : CString) → [] ≡ x ++ y → (x ≡ []) × (y ≡ [])
append-eq-nil [] y p = (refl, sym p)
append-eq-nil (c ∷ x) y p = cc

nullable-Matches : (a : Grammar) → (nullable a ≡ true) ↔ Matches a []
nullable-Matches empty = ((λ h. cc), (λ m. absurd m))
nullable-Matches epsilon = ((λ h. refl), (λ m. refl))
nullable-Matches (range lo hi) = ((λ h. cc), (λ (c, p, m, n). cc))
nullable-Matches (seq a b) = (
  (λ h.
      let ha : nullable a ≡ true = ground arith in
      let hb : nullable b ≡ true = ground arith in
      ([], [], refl, (nullable-Matches a).0 ha, (nullable-Matches b).0 hb)),
  (λ (x, y, p, m, n).
      let (ex, ey) = append-eq-nil x y p in
      let ha : nullable a ≡ true = (nullable-Matches a).1 (rw ex at m) in
      let hb : nullable b ≡ true = (nullable-Matches b).1 (rw ey at n) in rw (ha, hb) refl),
)
nullable-Matches (alt a b) = (
  (λ h. elim (Bool-cases (nullable a)) [
    | inl ha ↦ inl ((nullable-Matches a).0 ha)
    | inr ha ↦ let hb : nullable b ≡ true = ground arith in inr ((nullable-Matches b).0 hb)
  ]),
  (λ m. elim m [
    | inl m' ↦ let ha = (nullable-Matches a).1 m' in ground arith
    | inr m' ↦ let hb = (nullable-Matches b).1 m' in ground arith
  ]),
)
nullable-Matches (star a) = ((λ h. stop refl), (λ m. refl))

-- A word that begins with `c`, taken apart.
append-eq-cons :
    (c : ℕ) (w x y : CString)
    → c ∷ w ≡ x ++ y
    → ((x ≡ []) × (y ≡ c ∷ w)) ⊎ ((x' : CString) × (x ≡ c ∷ x') × (w ≡ x' ++ y))
append-eq-cons c w [] y p = inl (refl, sym p)
append-eq-cons c w (d ∷ x) y p = inr (x, cc, cc)

-- The first word of a repetition that is not empty.
Star-cons :
    (P : CString → Type 0) (c : ℕ) (w v : CString)
    → Star P v
    → v ≡ c ∷ w
    → (x : CString) × (y : CString) × (w ≡ x ++ y) × P (c ∷ x) × Star P y
Star-cons P c w v (stop e) q = cc
Star-cons P c w v (more x y e p s) q = elim (append-eq-cons c w x y (sym q ∙ e)) [
  | inl (ex, ey) ↦ Star-cons P c w y s ey
  | inr (x', ex, ew) ↦ (x', y, ew, rw ex at p, s)
]

-- What follows `c` in the words that begin with it.
after-Matches : (c : ℕ) (a : Grammar) (w : CString) → Matches (after c a) w ↔ Matches a (c ∷ w)
after-Matches c empty w = ((λ m. absurd m), (λ m. absurd m))
after-Matches c epsilon w = ((λ m. absurd m), (λ p. cc))
after-Matches c (range lo hi) w = elim (Bool-cases (leb lo c && leb c hi)) [
  | inl within ↦
      rw within ((λ e. (c, ap (λ t. c ∷ t) e, ground arith, ground arith)), (λ (d, p, l, h). cc))
  | inr outside ↦
      rw outside ((λ m. absurd m), (λ (d, p, l, h). let e : c ≡ d = cc in absurd (ground arith)))
]
after-Matches c (seq a b) w = (
  (λ m.
      elim ((either-Matches (join (after c a) b) (if nullable a then after c b else empty) w).0 m) [
        | inl m' ↦
            let (x, y, p, ma, mb) = (join-Matches (after c a) b w).0 m' in
            (c ∷ x, y, ap (λ t. c ∷ t) p, (after-Matches c a x).0 ma, mb)
        | inr m' ↦ elim (Bool-cases (nullable a)) [
          | inl yes' ↦ (
            [],
            c ∷ w,
            refl,
            (nullable-Matches a).0 yes',
            (after-Matches c b w).0 (rw yes' at m'),
          )
          | inr no' ↦ absurd (rw no' at m')
        ]
      ]),
  (λ (x, y, p, ma, mb).
      (either-Matches (join (after c a) b) (if nullable a then after c b else empty) w).1
        (elim (append-eq-cons c w x y p) [
          | inl (ex, ey) ↦
              let yes' : nullable a ≡ true = (nullable-Matches a).1 (rw ex at ma) in
              inr (rw yes' ((after-Matches c b w).1 (rw ey at mb)))
          | inr (x', ex, ew) ↦ inl (
              (join-Matches (after c a) b w).1
                (x', y, ew, (after-Matches c a x').1 (rw ex at ma), mb))
        ])),
)
after-Matches c (alt a b) w = (
  (λ m. elim ((either-Matches (after c a) (after c b) w).0 m) [
    | inl m' ↦ inl ((after-Matches c a w).0 m')
    | inr m' ↦ inr ((after-Matches c b w).0 m')
  ]),
  (λ m. (either-Matches (after c a) (after c b) w).1 (elim m [
    | inl m' ↦ inl ((after-Matches c a w).1 m')
    | inr m' ↦ inr ((after-Matches c b w).1 m')
  ])),
)
after-Matches c (star a) w = (
  (λ m.
      let (x, y, p, ma, rest) = (join-Matches (after c a) (star a) w).0 m in
      more (c ∷ x) y (ap (λ t. c ∷ t) p) ((after-Matches c a x).0 ma) rest),
  (λ m.
      let (x, y, p, ma, rest) = Star-cons (Matches a) c w (c ∷ w) m refl in
      (join-Matches (after c a) (star a) w).1 (x, y, p, (after-Matches c a x).1 ma, rest)),
)

has_word-Matches : (a : Grammar) → (has_word a ≡ true) ↔ ((w : CString) × Matches a w)
has_word-Matches empty = ((λ h. cc), (λ (w, m). absurd m))
has_word-Matches epsilon = ((λ h. ([], refl)), (λ m. refl))
has_word-Matches (range lo hi) =
    ((λ h. (lo ∷ [], (lo, refl, omega arith, ground arith))), (λ (w, (c, p, l, h)). ground arith))
has_word-Matches (seq a b) = (
  (λ h.
      let ha : has_word a ≡ true = ground arith in
      let hb : has_word b ≡ true = ground arith in
      let (x, m) = (has_word-Matches a).0 ha in
      let (y, n) = (has_word-Matches b).0 hb in (x ++ y, (x, y, refl, m, n))),
  (λ (w, (x, y, p, m, n)).
      let ha : has_word a ≡ true = (has_word-Matches a).1 (x, m) in
      let hb : has_word b ≡ true = (has_word-Matches b).1 (y, n) in rw (ha, hb) refl),
)
has_word-Matches (alt a b) = (
  (λ h. elim (Bool-cases (has_word a)) [
    | inl ha ↦ let (x, m) = (has_word-Matches a).0 ha in (x, inl m)
    | inr ha ↦
        let hb : has_word b ≡ true = ground arith in
        let (x, m) = (has_word-Matches b).0 hb in (x, inr m)
  ]),
  (λ (w, m). elim m [
    | inl m' ↦ let ha = (has_word-Matches a).1 (w, m') in ground arith
    | inr m' ↦ let hb = (has_word-Matches b).1 (w, m') in ground arith
  ]),
)
has_word-Matches (star a) = ((λ h. ([], stop refl)), (λ m. refl))

-- A machine reads on exactly along the beginnings of its words.
pub scans-Prefix :
    (g : Grammar) (text : CString)
    → (scans g text ≡ true) ↔ ((rest : CString) × Matches g (text ++ rest))
unfolding scans
scans-Prefix g [] = has_word-Matches g
scans-Prefix g (c ∷ text) = (
  (λ h.
      let (rest, m) = (scans-Prefix (after c g) text).0 h in
      (rest, (after-Matches c g (text ++ rest)).0 m)),
  (λ (rest, m). (scans-Prefix (after c g) text).1 (rest, (after-Matches c g (text ++ rest)).1 m)),
)
