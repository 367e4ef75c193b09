-- ===== src/Entry/Represented.antt =====
-- src/entry.c: the entries that `search_on_read` makes of a message, where there is memory.
use mathlib.Core.Path.{subst}
use mathlib.Core.List.{append_assoc, append-nil}
use libdomain.Prelude.{
  ℕ, zero, suc, ◌+◌, ◌*◌, ◌≡◌, ◌∙◌, inl, inr, refl, Bool, true, false, Option, none, some, List, [],
  ◌∷◌, ◌++◌, map, length, leb, if◌then◌else◌, CString, str_eq, str_eq-path, Bool-cases, arith,
}
use libdomain.Ldap.{Call, RawAttribute, RawEntry, call_talloc}
use libdomain.Connection.{Connection, M, done, log, pure, ◌>>=◌}
use libdomain.Entry.Table.{
  LdEntry, insert, lookup, allocate, ld_entry_new, ld_entry_get_attribute, ld_entry_add_attribute,
  read_attributes, read_messages, read_entries,
}
use libdomain.Entry.Memory.{Ample}

lookup-insert :
    (a : RawAttribute) (name : CString) (xs : List RawAttribute)
    → lookup name (insert a xs) ≡ (if str_eq name a.name then some a else lookup name xs)
lookup-insert a name [] = refl
lookup-insert a name (b ∷ bs) = elim (Bool-cases (str_eq a.name b.name)) [
  | inl same ↦ let e : a.name ≡ b.name = str_eq-path a.name b.name same in ground arith
  | inr other ↦ elim (Bool-cases (str_eq name a.name)) [
    | inl mine ↦
        let e : name ≡ a.name = str_eq-path name a.name mine in
        let not_b : str_eq name b.name ≡ false = rw e other in
        ground (arith, lookup-insert a name bs)
    | inr not_a ↦ ground (arith, lookup-insert a name bs)
  ]
]

-- The last attribute of that name.
abbrev pub last_called : CString → List RawAttribute → Option RawAttribute
last_called name [] = none
last_called name (a ∷ rest) = elim (last_called name rest) [
  | none ↦ if str_eq name a.name then some a else none
  | some b ↦ some b
]

-- The entries are those of the message, in its order: the same names, and under each name of an attribute
-- the last attribute with it.
abbrev pub Represent : List LdEntry → List RawEntry → Type 0
Represent [] [] = Unit
Represent (e ∷ es) (m ∷ ms) =
    (e.dn ≡ m.dn)
    × ((name : CString) → ld_entry_get_attribute (some e) name ≡ last_called name m.attributes)
    × Represent es ms
Represent _ _ = ⊥

abbrev pub put_attribute : LdEntry → RawAttribute → LdEntry
put_attribute e a = record e { attributes = insert a e.attributes }

abbrev pub add_all : LdEntry → List RawAttribute → LdEntry
add_all e [] = e
add_all e (a ∷ rest) = add_all (put_attribute e a) rest

abbrev or_else : Option RawAttribute → Option RawAttribute → Option RawAttribute
or_else none o = o
or_else (some a) o = some a

lookup-add_all :
    (name : CString) (as' : List RawAttribute) (e : LdEntry)
    → lookup name (add_all e as').attributes
      ≡ or_else (last_called name as') (lookup name e.attributes)
lookup-add_all name [] e = refl
lookup-add_all name (a ∷ rest) e =
    lookup-add_all name rest (put_attribute e a) ∙ on (last_called name rest)
  where
    on :
        (o : Option RawAttribute)
        → or_else o (lookup name (insert a e.attributes))
          ≡ or_else
              (elim o [ none ↦ if str_eq name a.name then some a else none | some b ↦ some b ])
              (lookup name e.attributes)
    on (some b) = refl
    on none = lookup-insert a name e.attributes ∙ (elim (Bool-cases (str_eq name a.name)) [
      | inl mine ↦ rw mine refl
      | inr other ↦ rw other refl
    ])

abbrev pub entry_of : RawEntry → LdEntry
entry_of m = add_all (record { dn = m.dn; attributes = [] }) m.attributes

add_all-dn : (as' : List RawAttribute) (e : LdEntry) → (add_all e as').dn ≡ e.dn
add_all-dn [] e = refl
add_all-dn (a ∷ rest) e = add_all-dn rest (put_attribute e a)

or_else-none : (o : Option RawAttribute) → or_else o none ≡ o
or_else-none none = refl
or_else-none (some a) = refl

pub entries-Represent : (ms : List RawEntry) → Represent (map entry_of ms) ms
unfolding ld_entry_get_attribute
entries-Represent [] = tt
entries-Represent (m ∷ ms) = (
  add_all-dn m.attributes _,
  (λ name. lookup-add_all name m.attributes _ ∙ or_else-none (last_called name m.attributes)),
  entries-Represent ms,
)

-- The connection after the calls `t`.
abbrev pub at_trace : Connection → List Call → Connection
at_trace c t = record c { trace = t }

-- With memory, a run gives `a` and changes nothing but the trace.
abbrev pub Gives : {A : Type 0} → A → M A → Type 0
Gives a m = (c : Connection) → Ample c → (t : List Call) × (m c ≡ done a (at_trace c t))

Gives-bind :
    {A B : Type 0} (a : A) (b : B) (m : M A) (f : A → M B)
    → Gives a m
    → Gives b (f a)
    → Gives b (m >>= f)
Gives-bind a b m f g h c ample =
    let (t, e) = g c ample in let (t', e') = h (at_trace c t) ample in (t', rw (e, e') refl)

allocate-Gives : (n : ℕ) → Gives true (allocate n)
allocate-Gives zero c ample = (c.trace, refl)
allocate-Gives (suc n) c ample =
    let (t, e) = allocate-Gives n (log call_talloc c) ample in
    (t, rw (ample (call_talloc ∷ c.trace)) e)

pure-Gives : {A : Type 0} (a : A) → Gives a (pure a)
pure-Gives a c ample = (c.trace, refl)

new-Gives : (dn : CString) → Gives (some (record { dn = dn; attributes = [] })) (ld_entry_new dn)
unfolding ld_entry_new
new-Gives dn = Gives-bind true _ (allocate 2) _ (allocate-Gives 2) (pure-Gives _)

attributes-Gives :
    (as' : List RawAttribute) (e : LdEntry)
    → Gives (some (add_all e as')) (read_attributes as' (some e))
unfolding ld_entry_add_attribute
attributes-Gives [] e = pure-Gives _
attributes-Gives (a ∷ rest) e =
    Gives-bind true _ (allocate (3 + length a.values)) _ (allocate-Gives _)
      (attributes-Gives rest (put_attribute e a))

room-Gives : (b : Bool) → Gives true (if b then allocate 1 else pure true)
room-Gives true = allocate-Gives 1
room-Gives false = pure-Gives true

messages-Gives :
    (ms : List RawEntry) (index size : ℕ) (es : List LdEntry)
    → Gives (some (es ++ map entry_of ms)) (read_messages ms index size es)
messages-Gives [] index size es = rw (append-nil es) (pure-Gives _)
messages-Gives (m ∷ ms) index size es =
    Gives-bind true _ (if leb size (index + 2) then allocate 1 else pure true) _
      (room-Gives (leb size (index + 2)))
      (Gives-bind _ _ (ld_entry_new m.dn) _ (new-Gives m.dn) (
        Gives-bind _ _ (read_attributes m.attributes (some (record { dn = m.dn; attributes = [] })))
          _ (attributes-Gives m.attributes _)
          (subst
            (λ l. Gives (some l) (
              read_messages ms (index + 1) (if leb size (index + 2) then size * 2 else size)
                (es ++ entry_of m ∷ [])))
            (append_assoc es (entry_of m ∷ []) (map entry_of ms))
            (messages-Gives ms (index + 1) _ (es ++ entry_of m ∷ [])))))

pub read-Gives : (ms : List RawEntry) → Gives (some (map entry_of ms)) (read_entries ms)
unfolding read_entries
read-Gives ms = Gives-bind true _ (allocate 1) _ (allocate-Gives 1) (messages-Gives ms 0 256 [])
