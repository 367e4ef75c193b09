-- ===== src/Entry/Attributes.antt =====
-- src/entry.c: reading an entry out, and the callback that prints the entries of a search.
use libdomain.Prelude.{Option, none, some, List, [], ◌∷◌, ◌++◌, if◌then◌else◌, length, CString}
use libdomain.Ldap.{RawAttribute, call_talloc_free}
use libdomain.Connection.{ReturnCode, rc_success, M, pure, faulty, perform, ◌>>=◌, ◌>>◌}
use libdomain.Entry.Table.{LdEntry, allocate}

-- An attribute of the array that `ld_entry_get_attributes` makes; `values` is NULL when there was no memory
-- for it.
pub record FilledAttribute : Type 0 where
  pub name : CString
  pub values : Option (List CString)

unfoldable pub ld_entry_get_dn : LdEntry → M (Option CString)
ld_entry_get_dn entry = do ok ← allocate 1; pure (if ok then some entry.dn else none)

-- The array of the values, and their copies; the label frees the array if there is one.
unfoldable pub fill_attribute : RawAttribute → M FilledAttribute
fill_attribute a = do
  array ← allocate 1
  if array
      then (do
        ok ← allocate (length a.values)
        if ok
            then pure (record { name = a.name; values = some a.values })
            else (do perform call_talloc_free; pure (record { name = a.name; values = none })))
      else pure (record { name = a.name; values = none })

-- The loop over the table.
abbrev pub fill_table : List RawAttribute → List FilledAttribute → M (Option (List FilledAttribute))
fill_table [] result = pure (some result)
fill_table (a ∷ rest) result = do
  ok ← allocate 1
  if ok
      then (do filled ← fill_attribute a; fill_table rest (result ++ filled ∷ []))
      else (do perform call_talloc_free; pure none)

unfoldable pub ld_entry_get_attributes : LdEntry → M (Option (List FilledAttribute))
ld_entry_get_attributes entry = do
  ok ← allocate 1
  if ok then fill_table entry.attributes [] else pure none

-- The loops of the callback, which read the name of an entry, its attributes and their values without a
-- check for NULL.
abbrev pub print_attributes : List FilledAttribute → M (Unit {0})
print_attributes [] = pure tt
print_attributes (a ∷ rest) = elim a.values [ none ↦ faulty | some values ↦ print_attributes rest ]

unfoldable pub print_search_callback : List LdEntry → M ReturnCode
print_search_callback [] = pure rc_success
print_search_callback (entry ∷ rest) = do
  dn ← ld_entry_get_dn entry
  elim dn [
    | none ↦ faulty
    | some text ↦ (do
      attributes ← ld_entry_get_attributes entry
      elim attributes [
        | none ↦ faulty
        | some filled ↦ (do
          print_attributes filled
          perform call_talloc_free
          print_search_callback rest)
      ])
  ]
