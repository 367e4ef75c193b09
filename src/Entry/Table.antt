-- ===== src/Entry/Table.antt =====
-- src/entry.c: `ld_entry_t` and its functions `ld_entry_new`, `ld_entry_add_attribute` and
-- `ld_entry_get_attribute`, and the part of `search_on_read` that makes entries of a message. The hash
-- table of an entry, which is never NULL, is the list of its attributes, one for each name.
use libdomain.Prelude.{
  ℕ, zero, suc, ◌+◌, ◌*◌, ◌==◌, Bool, true, false, Option, none, some, List, [], ◌∷◌, ◌++◌, leb,
  if◌then◌else◌, length, null, CString, str_eq,
}
use libdomain.Ldap.{RawAttribute, RawEntry, call_talloc}
use libdomain.Connection.{ReturnCode, rc_success, rc_failure, M, pure, perform, ◌>>=◌}

pub record LdEntry : Type 0 where
  pub dn : CString
  pub attributes : List RawAttribute

-- `g_hash_table_insert`, which replaces the value of a key that is there.
abbrev pub insert : RawAttribute → List RawAttribute → List RawAttribute
insert a [] = a ∷ []
insert a (b ∷ bs) = if str_eq a.name b.name then a ∷ bs else b ∷ insert a bs

-- `g_hash_table_lookup`
abbrev pub lookup : CString → List RawAttribute → Option RawAttribute
lookup name [] = none
lookup name (b ∷ bs) = if str_eq name b.name then some b else lookup name bs

-- `LDAPAttribute_t`, whose name may be NULL.
pub record LdapAttribute : Type 0 where
  pub name : Option CString
  pub values : List CString

abbrev pub named : RawAttribute → LdapAttribute
named a = record { name = some a.name; values = a.values }

abbrev is_there : Option RawAttribute → Bool
is_there none = false
is_there (some _) = true

-- `g_hash_table_insert` is true for a new key only; the value of a key that is there is replaced all the
-- same. Either argument may be NULL.
unfoldable pub ld_entry_add_attribute :
    Option LdEntry → Option LdapAttribute → ReturnCode × Option LdEntry
ld_entry_add_attribute none attr = (rc_failure, none)
ld_entry_add_attribute (some entry) none = (rc_failure, some entry)
ld_entry_add_attribute (some entry) (some attr) = elim attr.name [
  | none ↦ (rc_failure, some entry)
  | some name ↦ (
    if is_there (lookup name entry.attributes) then rc_failure else rc_success,
    some (record entry {
      attributes = insert (record { name = name; values = attr.values }) entry.attributes;
    }),
  )
]

unfoldable pub ld_entry_get_attribute : Option LdEntry → CString → Option RawAttribute
ld_entry_get_attribute none name_or_oid = none
ld_entry_get_attribute (some entry) name_or_oid = lookup name_or_oid entry.attributes

-- `n` allocations in a row, up to the first that fails.
abbrev pub allocate : ℕ → M Bool
allocate zero = pure true
allocate (suc n) = do a ← perform call_talloc; if a.ptr == null then pure false else allocate n

-- The entry and the copy of its name.
unfoldable pub ld_entry_new : CString → M (Option LdEntry)
ld_entry_new dn = do
  ok ← allocate 2
  pure (if ok then some (record { dn = dn; attributes = [] }) else none)

-- The inner loop: for each attribute a struct, a name, an array and its values are allocated. The result
-- code of the addition is not used.
abbrev pub read_attributes : List RawAttribute → Option LdEntry → M (Option LdEntry)
read_attributes [] entry = pure entry
read_attributes (a ∷ rest) entry = do
  ok ← allocate (3 + length a.values)
  if ok then read_attributes rest (ld_entry_add_attribute entry (some (named a))).1 else pure none

-- The loop over the messages; `index` counts the entries, `size` is the length of their array, which
-- is doubled when it is nearly full.
abbrev pub read_messages :
    List RawEntry → (index size : ℕ) → List LdEntry → M (Option (List LdEntry))
read_messages [] index size done' = pure (some done')
read_messages (m ∷ rest) index size done' = do
  ok ← if leb size (index + 2) then allocate 1 else pure true
  if ok
      then (do
        e ← ld_entry_new m.dn
        elim e [
          | none ↦ pure none
          | some entry ↦ (do
            r ← read_attributes m.attributes (some entry)
            elim r [
              | none ↦ pure none
              | some full ↦
                  read_messages rest (index + 1) (if leb size (index + 2) then size * 2 else size)
                    (done' ++ full ∷ [])
            ])
        ])
      else pure none

-- The array of 256 entries, and the entries of the message.
unfoldable pub read_entries : List RawEntry → M (Option (List LdEntry))
read_entries messages = do
  ok ← allocate 1
  if ok then read_messages messages 0 256 [] else pure none
