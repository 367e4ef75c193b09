-- ===== src/Prelude/Words.antt =====
-- The C types that the components share: `int` values, pointers and NUL-terminated strings.
use Prim.Native.Nat.{ℕ, ◌-◌, ◌^◌}
use Prim.Native.Char.{code}
use Prim.Native.String.{String}
use mathlib.Core.Path.{◌≡◌, refl}
use mathlib.Core.Bool.{Bool, true, false, ◌&&◌}
use mathlib.Core.List.{List, [], ◌∷◌}
use native.Mathlib.Omega.{arith}
use libdomain.Prelude.Tests.{leb, ltb, ◌==◌, if◌then◌else◌}

-- `negsuc n` is -(n + 1).
pub data ℤ : Type 0 where
  pos : ℕ → ℤ
  negsuc : ℕ → ℤ

abbrev pub int_eq : ℤ → ℤ → Bool
int_eq (pos a) (pos b) = a == b
int_eq (negsuc a) (negsuc b) = a == b
int_eq _ _ = false

-- The conversion of an `unsigned int` to `int`: the same 32 bits, read as two's complement.
abbrev pub int_of_uint : ℕ → ℤ
int_of_uint n = if ltb n (2 ^ 31) then pos n else negsuc (2 ^ 32 - 1 - n)

-- `n >= k` for a count n that is not negative.
abbrev pub reaches : ℕ → ℤ → Bool
reaches n (pos k) = leb k n
reaches n (negsuc _) = true

-- `n > k` for a count n that is not negative.
abbrev pub exceeds : ℕ → ℤ → Bool
exceeds n (pos k) = ltb k n
exceeds n (negsuc _) = true

-- An address; `NULL` is 0.
abbrev pub Ptr : Type 0
Ptr = ℕ

abbrev pub null : Ptr
null = 0

-- A NUL-terminated string: its bytes, without the terminator.
abbrev pub CString : Type 0
CString = List ℕ

abbrev pub codes : String → CString
codes String.[] = []
codes (String.◌∷◌ c s) = code c ∷ codes s

-- `strcmp (a, b) == 0`
abbrev pub str_eq : CString → CString → Bool
str_eq [] [] = true
str_eq (a ∷ as') (b ∷ bs) = a == b && str_eq as' bs
str_eq _ _ = false

pub str_eq-path : (a b : CString) → str_eq a b ≡ true → a ≡ b
str_eq-path [] [] h = refl
str_eq-path (x ∷ xs) (y ∷ ys) h =
    let first : x ≡ y = ground arith in
    let rest : str_eq xs ys ≡ true = ground arith in rw (first, str_eq-path xs ys rest) refl
str_eq-path [] (y ∷ ys) h = cc
str_eq-path (x ∷ xs) [] h = cc
