-- ===== src/RequestQueue/Chain.antt =====
-- Chains of nodes through their `prev` fields, and the representation predicate of a queue.
use libdomain.Prelude.{
  ℕ, ◌≤◌, ◌≡◌, refl, sym, ◌∙◌, ◌≢◌, Bool, true, false, ◌||◌, List, [], ◌∷◌, ◌++◌, arith, ◌==◌,
  update, length, Ptr, null, pos,
}
use libdomain.RequestQueue.{Store}

abbrev pub has : Ptr → List Ptr → Bool
has a [] = false
has a (x ∷ xs) = (a == x) || has a xs

-- From `p` the `prev` fields lead through the distinct nodes `xs` to NULL.
abbrev pub Chain : (Ptr → Ptr) → Ptr → List Ptr → Type 0
Chain prev p [] = p ≡ null
Chain prev p (x ∷ xs) = (p ≡ x) × (x ≢ null) × (has x xs ≡ false) × Chain prev (prev x) xs

-- `t` is the last of `xs`, if there is one.
abbrev pub IsTail : Ptr → List Ptr → Type 0
IsTail t [] = Unit
IsTail t (x ∷ []) = t ≡ x
IsTail t (x ∷ y ∷ xs) = IsTail t (y ∷ xs)

abbrev pub Apart : List Ptr → List Ptr → Type 0
Apart xs ys = (a : Ptr) → has a xs ≡ true → has a ys ≡ false

-- Queue `q` of `s` holds the nodes `xs`, first in first out, within a capacity of `cap`.
pub record IsQueue (s : Store) (q : Ptr) (cap : ℕ) (xs : List Ptr) : Type 0 where
  pub not_null : q ≢ null
  pub chain : Chain s.prev (s.queue q).head xs
  pub ends : IsTail (s.queue q).tail xs
  pub size : (s.queue q).size ≡ length xs
  pub capacity : (s.queue q).capacity ≡ pos cap
  pub bounded : length xs ≤ cap

pub has-append : (a : Ptr) (xs ys : List Ptr) → has a (xs ++ ys) ≡ (has a xs || has a ys)
has-append a [] ys = refl
has-append a (x ∷ xs) ys = ground (arith, has-append a xs ys)

-- A chain depends on the `prev` fields of its own nodes only.
pub Chain-frame :
    (prev prev' : Ptr → Ptr) (p : Ptr) (xs : List Ptr)
    → Chain prev p xs
    → ((a : Ptr) → has a xs ≡ true → prev' a ≡ prev a)
    → Chain prev' p xs
Chain-frame prev prev' p [] c same = c
Chain-frame prev prev' p (x ∷ xs) (e, ne, out, c) same =
    let here : prev' x ≡ prev x = same x (ground arith) in
    (e, ne, out, rw here (Chain-frame prev prev' (prev x) xs c (λ a h. same a (ground arith))))

pub has-tail : (t x : Ptr) (xs : List Ptr) → IsTail t (x ∷ xs) → has t (x ∷ xs) ≡ true
has-tail t x [] h = ground arith
has-tail t x (y ∷ xs) h = ground (arith, has-tail t y xs h)

-- Making the last node of one chain point to a second one joins the two.
pub Chain-append :
    (prev : Ptr → Ptr) (t p q x : Ptr) (xs ys : List Ptr)
    → Chain prev p (x ∷ xs)
    → IsTail t (x ∷ xs)
    → Chain prev q ys
    → Apart (x ∷ xs) ys
    → Chain (update prev t q) p (x ∷ xs ++ ys)
Chain-append prev t p q x [] ys (e, ne, out, c) last d apart =
    let here : update prev t q x ≡ q = ground arith in
    let free : has x ys ≡ false = apart x (ground arith) in
    let rest = Chain-frame prev (update prev t q) q ys d (λ a h. ground arith) in
    (e, ne, free, rw here rest)
Chain-append prev t p q x (y ∷ xs) ys (e, ne, out, c) last d apart =
    let other : update prev t q x ≡ prev x = ground (arith, has-tail t y xs last) in
    let rest = Chain-append prev t (prev x) q y xs ys c last d (λ a h. apart a (ground arith)) in
    let free : has x (y ∷ xs ++ ys) ≡ false =
      ground (arith, has-append x (y ∷ xs) ys, apart x (ground arith)) in
    (e, ne, free, rw other rest)

pub IsTail-append :
    (t : Ptr) (xs : List Ptr) (y : Ptr) (ys : List Ptr)
    → IsTail t (y ∷ ys)
    → IsTail t (xs ++ y ∷ ys)
IsTail-append t [] y ys h = h
IsTail-append t (x ∷ []) y ys h = h
IsTail-append t (x ∷ x' ∷ xs) y ys h = IsTail-append t (x' ∷ xs) y ys h

pub IsTail-IsTail : (t x : Ptr) (xs : List Ptr) → IsTail t (x ∷ xs) → IsTail t xs
IsTail-IsTail t x [] h = tt
IsTail-IsTail t x (y ∷ xs) h = h

-- No node of a chain is NULL, so its tail is not.
pub Chain-tail_ne :
    (prev : Ptr → Ptr) (p t x : Ptr) (xs : List Ptr)
    → Chain prev p (x ∷ xs)
    → IsTail t (x ∷ xs)
    → t ≢ null
Chain-tail_ne prev p t x [] (e, ne, out, c) h = λ z. ne (sym h ∙ z)
Chain-tail_ne prev p t x (y ∷ xs) (e, ne, out, c) h = Chain-tail_ne prev (prev x) t y xs c h
