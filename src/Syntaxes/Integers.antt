-- ===== src/Syntaxes/Integers.antt =====
-- The words of the machine of integers in src/syntaxes/integer.rl, and their values.
pub mod Ranges
use libdomain.Prelude.{
  ℕ, zero, suc, ◌+◌, ◌-◌, ◌*◌, ◌^◌, ◌≤◌, ◌<◌, ◌==◌, ◌≡◌, ◌≢◌, ◌↔◌, ◌⊎◌, refl, sym, ap, ◌∙◌, inl,
  inr, Bool, true, false, List, [], ◌∷◌, ◌++◌, ltb, leb, ◌&&◌, if◌then◌else◌, length, ℤ, pos,
  negsuc, CString, Bool-cases, append-nil, arith,
}
use libdomain.Syntaxes.Grammar.{Grammar, Star, stop, more, Matches, scans}
use libdomain.Syntaxes.Grammar.Words.{append-eq-nil, scans-Prefix}
use libdomain.Syntaxes.Machines.{digit, ldigit, number, integer, is_integer}
use libdomain.Syntaxes.Validators.{is_digit, read_digits}

abbrev pub Digits : CString → Type 0
Digits [] = Unit
Digits (c ∷ text) = (is_digit c ≡ true) × Digits text

-- A number without a leading zero, and not 0.
abbrev pub IsPositive : CString → Type 0
IsPositive [] = ⊥
IsPositive (c ∷ text) = (is_digit c ≡ true) × (c ≢ b'0') × Digits text

abbrev pub IsNumber : CString → Type 0
IsNumber text = (text ≡ b'0' ∷ []) ⊎ IsPositive text

-- `Integer = ( HYPHEN LDIGIT *DIGIT ) | number` of RFC 4517.
abbrev pub IsInteger : CString → Type 0
IsInteger text = IsNumber text ⊎ ((rest : CString) × (text ≡ b'-' ∷ rest) × IsPositive rest)

Matches-digit : (v : CString) → Matches digit v → (c : ℕ) × (v ≡ c ∷ []) × (is_digit c ≡ true)
Matches-digit v (inl (c, p, l, h)) = (c, p, ground arith)
Matches-digit v (inr (c, p, l, h)) = (c, p, ground arith)

digit-Matches : (c : ℕ) → is_digit c ≡ true → Matches digit (c ∷ [])
digit-Matches c h = elim (Bool-cases (c == b'0')) [
  | inl e ↦ inl (c, refl, ground arith, ground arith)
  | inr e ↦ inr (c, refl, ground arith, ground arith)
]

Star-Digits : (v : CString) → Star (Matches digit) v → Digits v
Star-Digits v (stop e) = rw e tt
Star-Digits v (more x y e m s) = let (c, p, h) = Matches-digit x m in rw (e, p) (h, Star-Digits y s)

Digits-Star : (v : CString) → Digits v → Star (Matches digit) v
Digits-Star [] d = stop refl
Digits-Star (c ∷ v) (h, d) = more (c ∷ []) v refl (digit-Matches c h) (Digits-Star v d)

Digits-append : (v w : CString) → Digits (v ++ w) → Digits v
Digits-append [] w d = tt
Digits-append (c ∷ v) w (h, d) = (h, Digits-append v w d)

-- `LDIGIT DIGIT*`
Matches-IsPositive :
    (v : CString)
    → ((x : CString) × (y : CString) × (v ≡ x ++ y) × Matches ldigit x × Star (Matches digit) y)
      ↔ IsPositive v
Matches-IsPositive v =
    ((λ (x, y, e, (c, p, l, h), s). rw (e, p) (ground arith, omega arith, Star-Digits y s)), to v)
  where
    to :
        (w : CString)
        → IsPositive w
        → (x : CString) × (y : CString) × (w ≡ x ++ y) × Matches ldigit x × Star (Matches digit) y
    to [] m = absurd m
    to (c ∷ w) (h, n, d) = (c ∷ [], w, refl, (c, refl, ground arith, ground arith), Digits-Star w d)

Matches-IsNumber : (v : CString) → Matches number v → IsNumber v
Matches-IsNumber v (inl m) =
    let (c, p, h) = Matches-digit v m in
    elim (Bool-cases (c == b'0')) [
      | inl e ↦ inl (rw p (ap (λ (d : ℕ). d ∷ []) (ground arith)))
      | inr e ↦ inr (rw p (h, ground arith, tt))
    ]
Matches-IsNumber v (inr (x, y, e, m, (x', y', e', m', s))) =
    inr ((Matches-IsPositive v).0 (x, y, e, m, more x' y' e' m' s))

IsNumber-Matches : (v : CString) → IsNumber v → Matches number v
IsNumber-Matches v (inl e) = inl (inl (b'0', e, omega arith, omega arith))
IsNumber-Matches [] (inr m) = absurd m
IsNumber-Matches (c ∷ []) (inr (h, n, d)) = inl (digit-Matches c h)
IsNumber-Matches (c ∷ c' ∷ v) (inr (h, n, (h', d))) = inr (
  c ∷ [],
  c' ∷ v,
  refl,
  (c, refl, ground arith, ground arith),
  (c' ∷ [], v, refl, digit-Matches c' h', Digits-Star v d),
)

Matches-IsInteger : (v : CString) → Matches integer v ↔ IsInteger v
Matches-IsInteger v = (
  (λ m. elim m [
    | inl (x, y, e, (c, p, l, h), rest) ↦
        let dash : c ≡ b'-' = omega arith in
        inr (y, (rw (e, p, dash) refl), (Matches-IsPositive y).0 rest)
    | inr m' ↦ inl (Matches-IsNumber v m')
  ]),
  (λ i. elim i [
    | inl n ↦ inr (IsNumber-Matches v n)
    | inr (rest, e, m) ↦
        inl (
          b'-' ∷ [],
          rest,
          e,
          (b'-', refl, omega arith, omega arith),
          (Matches-IsPositive rest).1 m,
        )
  ]),
)

-- What begins a word: nothing, the sign alone, or a word.
IsPositive-append : (v w : CString) → IsPositive (v ++ w) → (v ≡ []) ⊎ IsPositive v
IsPositive-append [] w m = inl refl
IsPositive-append (c ∷ v) w (h, n, d) = inr (h, n, Digits-append v w d)

IsInteger-append : (v w : CString) → IsInteger (v ++ w) → (v ≡ []) ⊎ (v ≡ b'-' ∷ []) ⊎ IsInteger v
IsInteger-append [] w i = inl refl
IsInteger-append (c ∷ v) w (inl (inl e)) =
    let tail : v ++ w ≡ [] = cc in
    let head : c ≡ b'0' = cc in
    inr (inr (inl (inl (rw (head, (append-eq-nil v w (sym tail)).0) refl))))
IsInteger-append (c ∷ v) w (inl (inr m)) = inr (inr (inl (inr (m.0, m.1, Digits-append v w m.2))))
IsInteger-append (c ∷ v) w (inr (rest, e, m)) =
    let dash : c ≡ b'-' = cc in
    let same : v ++ w ≡ rest = cc in
    elim (IsPositive-append v w (rw same m)) [
      | inl e' ↦ inr (inl (rw (dash, e') refl))
      | inr m' ↦ inr (inr (inr (v, rw dash refl, m')))
    ]

-- The machine accepts the integers of RFC 4517, the sign alone and the empty text.
pub is_integer-IsInteger :
    (text : CString)
    → (is_integer text ≡ true) ↔ ((text ≡ []) ⊎ (text ≡ b'-' ∷ []) ⊎ IsInteger text)
unfolding is_integer
is_integer-IsInteger text = (
  (λ h.
      let (rest, m) = (scans-Prefix integer text).0 h in
      IsInteger-append text rest ((Matches-IsInteger (text ++ rest)).0 m)),
  (λ i. (scans-Prefix integer text).1 (elim i [
    | inl e ↦ (b'0' ∷ [], rw e ((Matches-IsInteger (b'0' ∷ [])).1 (inl (inl refl))))
    | inr (inl e) ↦ (
      b'1' ∷ [],
      rw e (
          (Matches-IsInteger (b'-' ∷ b'1' ∷ [])).1
            (inr (b'1' ∷ [], refl, (refl, omega arith, tt)))),
    )
    | inr (inr m) ↦ ([], rw append-nil ((Matches-IsInteger text).1 m))
  ])),
)
