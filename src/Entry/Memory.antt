-- ===== src/Entry/Memory.antt =====
-- Runs of functions that may lack memory: what holds however they end, and that they return when there is
-- memory for everything. And `ld_entry_get_attributes` of src/entry.c in these terms.
use libdomain.Prelude.{
  ℕ, zero, suc, ◌==◌, ◌≡◌, refl, sym, ◌∙◌, Bool, true, false, Option, none, some, List, [], ◌∷◌,
  ◌++◌, if◌then◌else◌, is_some, length, null,
}
use libdomain.Ldap.{Call, RawAttribute, call_talloc, call_talloc_free}
use libdomain.Connection.{Connection, Outcome, M, pure, perform, log, and_then, ◌>>◌}
use libdomain.Connection.Ends.{Ends, Returns, Ends-bind, Returns-bind}
use libdomain.Entry.Table.{LdEntry, allocate}
use libdomain.Entry.Attributes.{
  FilledAttribute, fill_attribute, fill_table, ld_entry_get_attributes,
}

-- There is always memory.
abbrev pub Ample : Connection → Type 0
Ample c = (past : List Call) → ((c.world past).ptr == null) ≡ false

-- All values are there.
abbrev pub Full : List FilledAttribute → Type 0
Full [] = Unit
Full (a ∷ rest) = (is_some a.values ≡ true) × Full rest

Full-append : (xs ys : List FilledAttribute) → Full xs → Full ys → Full (xs ++ ys)
Full-append [] ys f g = g
Full-append (x ∷ xs) ys (e, f) g = (e, Full-append xs ys f g)

module _ (c₀ : Connection) where
  abbrev pub Runs : {A : Type 0} → (A → Connection → Type 0) → Outcome A → Type 0
  Runs P o = Ends P o × (Ample c₀ → Returns P o)

  pub Runs-bind :
      {A B : Type 0} (P : A → Connection → Type 0) (Q : B → Connection → Type 0) (o : Outcome A)
      (f : A → M B)
      → Runs P o
      → ((a : A) (c : Connection) → P a c → Runs Q (f a c))
      → Runs Q (and_then o f)
  Runs-bind P Q o f h next = (
    Ends-bind P Q o f h.0 (λ a c p. (next a c p).0),
    (λ ample. Returns-bind P Q o f (h.1 ample) (λ a c p. (next a c p).1 ample)),
  )

  -- Both branches of a test.
  pub Runs-if :
      {A : Type 0} (P : A → Connection → Type 0) (b : Bool) (m n : M A) (c : Connection)
      → (b ≡ true → Runs P (m c))
      → (b ≡ false → Runs P (n c))
      → Runs P ((if b then m else n) c)
  Runs-if P true m n c h k = h refl
  Runs-if P false m n c h k = k refl

  -- The libraries are the same, and with memory the allocations succeed.
  abbrev pub Allocated : Bool → Connection → Type 0
  Allocated ok c = (c.world ≡ c₀.world) × (Ample c₀ → ok ≡ true)

  pub allocate-Runs : (n : ℕ) (c : Connection) → c.world ≡ c₀.world → Runs Allocated (allocate n c)
  allocate-Runs zero c w = ((w, λ _. refl), (λ _. (w, λ _. refl)))
  allocate-Runs (suc n) c w =
      Runs-if Allocated ((c.world (call_talloc ∷ c.trace)).ptr == null) (pure false) (allocate n)
        (log call_talloc c)
        (λ lacks.
          let refused = λ (ample : Ample c₀).
            let e : true ≡ false = sym lacks ∙ rw w (ample (call_talloc ∷ c.trace)) in
            absurd (cc) in
          ((w, refused), (λ ample. (w, refused))))
        (λ _. allocate-Runs n (log call_talloc c) w)

  abbrev pub Filled : FilledAttribute → Connection → Type 0
  Filled a c = (c.world ≡ c₀.world) × (Ample c₀ → is_some a.values ≡ true)

  abbrev pub FilledAll : Option (List FilledAttribute) → Connection → Type 0
  FilledAll r c =
      (c.world ≡ c₀.world) × (Ample c₀ → (as' : List FilledAttribute) × (r ≡ some as') × Full as')

  fill_attribute-Runs :
      (a : RawAttribute) (c : Connection) → c.world ≡ c₀.world → Runs Filled (fill_attribute a c)
  unfolding fill_attribute
  fill_attribute-Runs a c w =
      Runs-bind Allocated Filled (allocate 1 c) _ (allocate-Runs 1 c w) (λ array d (v, made).
        Runs-if Filled array _ (pure (record { name = a.name; values = none })) d
          (λ _.
            Runs-bind Allocated Filled (allocate (length a.values) d) _
              (allocate-Runs (length a.values) d v)
              (λ ok e (u, all).
                Runs-if Filled ok (pure (record { name = a.name; values = some a.values })) _ e
                  (λ _. ((u, λ _. refl), (λ _. (u, λ _. refl))))
                  (λ lacks.
                    let refused = λ (ample : Ample c₀). sym lacks ∙ all ample in
                    ((u, refused), (λ _. (u, refused))))))
          (λ lacks.
            let refused = λ (ample : Ample c₀). sym lacks ∙ made ample in
            ((v, refused), (λ _. (v, refused)))))

  fill_table-Runs :
      (table : List RawAttribute) (result : List FilledAttribute) (c : Connection)
      → c.world ≡ c₀.world
      → (Ample c₀ → Full result)
      → Runs FilledAll (fill_table table result c)
  fill_table-Runs [] result c w full =
      ((w, λ ample. (result, refl, full ample)), (λ _. (w, λ ample. (result, refl, full ample))))
  fill_table-Runs (a ∷ rest) result c w full =
      Runs-bind Allocated FilledAll (allocate 1 c) _ (allocate-Runs 1 c w) (λ ok d (v, made).
        Runs-if FilledAll ok _ (perform call_talloc_free >> pure none) d
          (λ _.
            Runs-bind Filled FilledAll (fill_attribute a d) _ (fill_attribute-Runs a d v)
              (λ filled e (u, there).
                fill_table-Runs rest (result ++ filled ∷ []) e u
                  (λ ample. Full-append result (filled ∷ []) (full ample) (there ample, tt))))
          (λ lacks.
            let refused =
              λ (ample : Ample c₀). let e : false ≡ true = sym lacks ∙ made ample in absurd (cc) in
            ((v, refused), (λ _. (v, refused)))))

  -- With memory, every attribute of the entry comes with its values.
  pub get_attributes-Runs :
      (entry : LdEntry) (c : Connection)
      → c.world ≡ c₀.world
      → Runs FilledAll (ld_entry_get_attributes entry c)
  unfolding ld_entry_get_attributes
  get_attributes-Runs entry c w =
      Runs-bind Allocated FilledAll (allocate 1 c) _ (allocate-Runs 1 c w) (λ ok d (v, made).
        Runs-if FilledAll ok (fill_table entry.attributes []) (pure none) d
          (λ _. fill_table-Runs entry.attributes [] d v (λ _. tt))
          (λ lacks.
            let refused =
              λ (ample : Ample c₀). let e : false ≡ true = sym lacks ∙ made ample in absurd (cc) in
            ((v, refused), (λ _. (v, refused)))))
