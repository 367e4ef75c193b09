-- ===== src/Connection/Ends.antt =====
-- Postconditions of a run: `Ends` where faults are allowed, `Returns` where they are excluded.
use libdomain.Prelude.{Bool, true, false, refl, ◌≡◌, if◌then◌else◌}
use libdomain.Connection.{Connection, Outcome, done, fault, out_of_fuel, M, and_then}

abbrev pub Ends : {A : Type 0} → (A → Connection → Type 0) → Outcome A → Type 0
Ends P (done a c) = P a c
Ends P fault = Unit
Ends P out_of_fuel = Unit

abbrev pub Returns : {A : Type 0} → (A → Connection → Type 0) → Outcome A → Type 0
Returns P (done a c) = P a c
Returns P fault = ⊥
Returns P out_of_fuel = ⊥

module _ {A B : Type 0} where
  pub Ends-bind :
      (P : A → Connection → Type 0) (Q : B → Connection → Type 0) (o : Outcome A) (f : A → M B)
      → Ends P o
      → ((a : A) (c : Connection) → P a c → Ends Q (f a c))
      → Ends Q (and_then o f)
  Ends-bind P Q (done a c) f h next = next a c h
  Ends-bind P Q fault f h next = tt
  Ends-bind P Q out_of_fuel f h next = tt

  pub Returns-bind :
      (P : A → Connection → Type 0) (Q : B → Connection → Type 0) (o : Outcome A) (f : A → M B)
      → Returns P o
      → ((a : A) (c : Connection) → P a c → Returns Q (f a c))
      → Returns Q (and_then o f)
  Returns-bind P Q (done a c) f h next = next a c h
  Returns-bind P Q fault f h next = absurd h
  Returns-bind P Q out_of_fuel f h next = absurd h

-- Both branches of a test.
pub Ends-if :
    {A : Type 0} (P : A → Connection → Type 0) (b : Bool) (m n : M A) (c : Connection)
    → (b ≡ true → Ends P (m c))
    → (b ≡ false → Ends P (n c))
    → Ends P ((if b then m else n) c)
Ends-if P true m n c h k = h refl
Ends-if P false m n c h k = k refl

pub Returns-if :
    {A : Type 0} (P : A → Connection → Type 0) (b : Bool) (m n : M A) (c : Connection)
    → (b ≡ true → Returns P (m c))
    → (b ≡ false → Returns P (n c))
    → Returns P ((if b then m else n) c)
Returns-if P true m n c h k = h refl
Returns-if P false m n c h k = k refl

pub Ends-weaken :
    {A : Type 0} (P Q : A → Connection → Type 0) (o : Outcome A)
    → Ends P o
    → ((a : A) (c : Connection) → P a c → Q a c)
    → Ends Q o
Ends-weaken P Q (done a c) h next = next a c h
Ends-weaken P Q fault h next = tt
Ends-weaken P Q out_of_fuel h next = tt

-- A run that may lack defined behaviour, but does not run out of fuel.
abbrev pub Halts : {A : Type 0} → (A → Connection → Type 0) → Outcome A → Type 0
Halts P (done a c) = P a c
Halts P fault = Unit
Halts P out_of_fuel = ⊥

pub Halts-bind :
    {A B : Type 0} (P : A → Connection → Type 0) (Q : B → Connection → Type 0) (o : Outcome A)
    (f : A → M B)
    → Halts P o
    → ((a : A) (c : Connection) → P a c → Halts Q (f a c))
    → Halts Q (and_then o f)
Halts-bind P Q (done a c) f h next = next a c h
Halts-bind P Q fault f h next = tt
Halts-bind P Q out_of_fuel f h next = absurd h

pub Halts-weaken :
    {A : Type 0} (P Q : A → Connection → Type 0) (o : Outcome A)
    → Halts P o
    → ((a : A) (c : Connection) → P a c → Q a c)
    → Halts Q o
Halts-weaken P Q (done a c) h next = next a c h
Halts-weaken P Q fault h next = tt
Halts-weaken P Q out_of_fuel h next = h

pub Returns-weaken :
    {A : Type 0} (P Q : A → Connection → Type 0) (o : Outcome A)
    → Returns P o
    → ((a : A) (c : Connection) → P a c → Q a c)
    → Returns Q o
Returns-weaken P Q (done a c) h next = next a c h
Returns-weaken P Q fault h next = h
Returns-weaken P Q out_of_fuel h next = h

pub Returns-Halts :
    {A : Type 0} (P Q : A → Connection → Type 0) (o : Outcome A)
    → Returns P o
    → ((a : A) (c : Connection) → P a c → Q a c)
    → Halts Q o
Returns-Halts P Q (done a c) h next = next a c h
Returns-Halts P Q fault h next = tt
Returns-Halts P Q out_of_fuel h next = h

pub Returns-Ends :
    {A : Type 0} (P Q : A → Connection → Type 0) (o : Outcome A)
    → Returns P o
    → ((a : A) (c : Connection) → P a c → Q a c)
    → Ends Q o
Returns-Ends P Q (done a c) h next = next a c h
Returns-Ends P Q fault h next = tt
Returns-Ends P Q out_of_fuel h next = tt
