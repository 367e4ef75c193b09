-- ===== src/Syntaxes/Integers/Ranges.antt =====
-- The two validators of integers in src/ldap_syntaxes.c: the buffers that they copy the text to are long
-- enough, and the range is the one meant.
use libdomain.Prelude.{
  ℕ, zero, suc, ◌+◌, ◌-◌, ◌*◌, ◌^◌, ◌≤◌, ◌<◌, ◌==◌, ◌≡◌, ◌↔◌, ◌⊎◌, ◌||◌, refl, sym, ap, ◌∙◌, inl,
  inr, Bool, true, false, Option, none, some, [], ◌∷◌, leb, if◌then◌else◌, length, ℤ, pos, negsuc,
  CString, Bool-cases, arith,
}
use libdomain.Syntaxes.Machines.{is_integer}
use libdomain.Syntaxes.Validators.{
  read_digits, read_integer, negated, fits, less, strtol, validate_integer, validate_large_integer,
}
use libdomain.Syntaxes.Integers.{Digits, IsPositive, IsInteger, is_integer-IsInteger}

-- `n * 10 ^ k`
abbrev scale : ℕ → ℕ → ℕ
scale zero n = n
scale (suc k) n = scale k (n * 10)

scale_mono : (k m n : ℕ) → m ≤ n → scale k m ≤ scale k n
scale_mono zero m n h = h
scale_mono (suc k) m n h = scale_mono k (m * 10) (n * 10) (omega arith)

read_digits-le : (n : ℕ) (text : CString) → n ≤ read_digits n text
read_digits-le n [] = omega arith
read_digits-le n (c ∷ text) = ground (arith, read_digits-le (n * 10 + (c - b'0')) text)

-- Every further digit makes the number ten times as large.
read_digits-scale :
    (k n : ℕ) (text : CString) → Digits text → k ≤ length text → scale k n ≤ read_digits n text
read_digits-scale zero n text d h = read_digits-le n text
read_digits-scale (suc k) n [] d h = absurd (omega arith)
read_digits-scale (suc k) n (c ∷ text) (e, d) h = rw e (
    omega (
      arith,
      scale_mono k (n * 10) (n * 10 + (c - b'0')),
      read_digits-scale k (n * 10 + (c - b'0')) text d (omega arith),
    ))

-- A number of `k` digits after its first is at least 10 ^ k.
IsPositive-scale :
    (k : ℕ) (text : CString)
    → IsPositive text
    → suc k ≤ length text
    → scale k 1 ≤ read_digits 0 text
IsPositive-scale k [] m h = absurd m
IsPositive-scale k (c ∷ text) (e, n, d) h =
    let first : 1 ≤ 0 * 10 + (c - b'0') = ground arith in
    rw e (
      omega (
        arith,
        scale_mono k 1 (0 * 10 + (c - b'0')) first,
        read_digits-scale k (0 * 10 + (c - b'0')) text d (omega arith),
      ))

-- What the range test of `validate_integer` comes to.
range_test :
    (z : ℤ)
    → (elim (if fits 63 z then some z else none) as (λ _. Bool) [
      | none ↦ false
      | some i ↦ if less i (negsuc 2147483647) || less (pos 2147483647) i then false else true
    ])
      ≡ fits 31 z
range_test (pos n) = ground arith
range_test (negsuc n) = ground arith

IsPositive-short :
    (k : ℕ) (text : CString) → IsPositive text → read_digits 0 text < scale k 1 → length text ≤ k
IsPositive-short k text m h = elim (Bool-cases (leb (suc k) (length text))) [
  | inl long ↦ absurd (omega (arith, IsPositive-scale k text m (ground arith)))
  | inr short ↦ ground arith
]

fits_pos : (w n : ℕ) → fits w (pos n) ≡ true → n < 2 ^ w
fits_pos w n h = ground arith

fits-negated : (w n : ℕ) → fits w (negated n) ≡ true → n ≤ 2 ^ w
fits-negated w n h = ground arith

-- An integer in the range leaves room for its NUL in a buffer of `k + 2` bytes.
IsInteger-short :
    (k w : ℕ) (text : CString)
    → 2 ^ w < scale k 1
    → 1 ≤ k
    → IsInteger text
    → fits w (read_integer text) ≡ true
    → length text ≤ k + 1
IsInteger-short k w text room one (inl (inl e)) fit = rw e (omega arith)
IsInteger-short k w [] room one (inl (inr m)) fit = absurd m
IsInteger-short k w (c ∷ text) room one (inl (inr m)) fit =
    let no_sign : (c == b'-') ≡ false = ground (arith, m.0) in
    let below : read_digits 0 (c ∷ text) < 2 ^ w =
      fits_pos w (read_digits 0 (c ∷ text)) (rw no_sign at fit) in
    omega (arith, IsPositive-short k (c ∷ text) m (omega arith))
IsInteger-short k w text room one (inr (rest, e, m)) fit =
    let below : read_digits 0 rest ≤ 2 ^ w = fits-negated w (read_digits 0 rest) (rw e at fit) in
    rw e (omega (arith, IsPositive-short k rest m (omega arith)))

-- A validator that copies to `k + 2` bytes, and accepts what fits in `w` bits and a sign.
abbrev accept : (k w : ℕ) → CString → Bool
accept k w text =
    if leb (k + 2) (length text)
    then false
    else if is_integer text
    then fits w (read_integer text)
    else false

both_tests :
    (a b f : Bool) → (if a then false else if b then f else false) ≡ true → (b ≡ true) × (f ≡ true)
both_tests true b f h = cc
both_tests false true f h = (refl, h)
both_tests false false f h = cc

accept-Fits :
    (k w : ℕ) (c : ℕ) (text : CString)
    → 2 ^ w < scale k 1
    → 1 ≤ k
    → 0 < 2 ^ w
    → (accept k w (c ∷ text) ≡ true) ↔ (
        (c ∷ text ≡ b'-' ∷ []) ⊎ (IsInteger (c ∷ text) × (fits w (read_integer (c ∷ text)) ≡ true)))
accept-Fits k w c text room one some_room = (
  (λ h.
      let (scanned, fit) =
        both_tests (leb (k + 2) (length (c ∷ text))) (is_integer (c ∷ text))
          (fits w (read_integer (c ∷ text))) h in
      elim ((is_integer-IsInteger (c ∷ text)).0 scanned) [
        | inl e ↦ absurd (cc)
        | inr (inl e) ↦ inl e
        | inr (inr i) ↦ inr (i, fit)
      ]),
  (λ o. elim o [
    | inl e ↦
        let scanned : is_integer (b'-' ∷ []) ≡ true =
          (is_integer-IsInteger (b'-' ∷ [])).1 (inr (inl refl)) in
        let sign : c ≡ b'-' = cc in
        let alone : text ≡ [] = cc in rw (sign, alone, scanned) (ground arith)
    | inr (i, fit) ↦
        let scanned : is_integer (c ∷ text) ≡ true =
          (is_integer-IsInteger (c ∷ text)).1 (inr (inr i)) in
        let short : leb (k + 2) (length (c ∷ text)) ≡ false =
          let fine = IsInteger-short k w (c ∷ text) room one i fit in ground arith in
        rw (short, scanned) fit
  ]),
)

-- A text that is the sign alone, or an integer of RFC 4517 in the range of `w` bits and a sign.
abbrev pub InRange : ℕ → Option CString → Type 0
InRange w value =
    (text : CString) × (value ≡ some text)
    × ((text ≡ b'-' ∷ []) ⊎ (IsInteger text × (fits w (read_integer text) ≡ true)))

not_nil : (w : ℕ) → ¬ InRange w (some [])
not_nil w (t, p, inl e) = absurd (cc)
not_nil w (t, p, inr (inl (inl e), f)) = absurd (cc)
not_nil w ([], p, inr (inl (inr m), f)) = absurd m
not_nil w (c ∷ t, p, inr (inl (inr m), f)) = absurd (cc)
not_nil w (t, p, inr (inr (r, e, m), f)) = absurd (cc)

wide_test :
    (z : ℤ)
    → (elim (if fits 63 z then some z else none) as (λ _. Bool) [ none ↦ false | some i ↦ true ])
      ≡ fits 63 z
wide_test z = elim (Bool-cases (fits 63 z)) [ inl e ↦ rw e refl | inr e ↦ rw e refl ]

-- On a text that is not empty each is such a validator.
validate_integer-accept :
    (c : ℕ) (text : CString) → validate_integer (some (c ∷ text)) ≡ accept 10 31 (c ∷ text)
unfolding validate_integer strtol
validate_integer-accept c text =
    ap
      (λ b.
        if leb 12 (length (c ∷ text)) then false else if is_integer (c ∷ text) then b else false)
      (range_test (read_integer (c ∷ text)))

validate_large_integer-accept :
    (c : ℕ) (text : CString) → validate_large_integer (some (c ∷ text)) ≡ accept 19 63 (c ∷ text)
unfolding validate_large_integer strtol
validate_large_integer-accept c text =
    ap
      (λ b.
        if leb 21 (length (c ∷ text)) then false else if is_integer (c ∷ text) then b else false)
      (wide_test (read_integer (c ∷ text)))

accept-InRange :
    (k w c : ℕ) (text : CString) (b : Bool)
    → b ≡ accept k w (c ∷ text)
    → 2 ^ w < scale k 1
    → 1 ≤ k
    → 0 < 2 ^ w
    → (b ≡ true) ↔ InRange w (some (c ∷ text))
accept-InRange k w c text b same room one some_room =
    let fits_lem = accept-Fits k w c text room one some_room in
    (
      (λ h. (c ∷ text, refl, fits_lem.0 (sym same ∙ h))),
      (λ (t, p, o). let e : t ≡ c ∷ text = cc in same ∙ fits_lem.1 (rw e at o)),
    )

-- The validators of integers accept a value exactly if it is a text that is an integer as RFC 4517 writes
-- it, without leading zeros or a sign before 0, in the range of 32 bits for `validate_integer` and of 64
-- for `validate_large_integer`, or is a sign alone: no integer in the range is too long for the buffers.
pub validate_integer-InRange :
    (value : Option CString)
    → ((validate_integer value ≡ true) ↔ InRange 31 value)
      × ((validate_large_integer value ≡ true) ↔ InRange 63 value)
unfolding validate_integer validate_large_integer strtol
validate_integer-InRange none = (((λ h. cc), (λ (t, p, o). cc)), ((λ h. cc), (λ (t, p, o). cc)))
validate_integer-InRange (some []) =
    (((λ h. cc), (λ r. absurd (not_nil 31 r))), ((λ h. cc), (λ r. absurd (not_nil 63 r))))
validate_integer-InRange (some (c ∷ text)) = (
  accept-InRange 10 31 c text _ (validate_integer-accept c text) (omega arith) (omega arith)
      (omega arith),
  accept-InRange 19 63 c text _ (validate_large_integer-accept c text) (omega arith) (omega arith)
      (omega arith),
)
