-- ===== src/Syntaxes/Accepted.antt =====
-- Which values the validators of src/ldap_syntaxes.c accept that ask a machine of src/syntaxes alone.
use libdomain.Prelude.{
  ◌≡◌, ◌↔◌, ◌⊎◌, refl, inl, inr, Bool, true, false, Option, none, some, [], ◌∷◌, ◌++◌, is_nil,
  CString,
}
use libdomain.Syntaxes.Grammar.{Grammar, Matches, scans}
use libdomain.Syntaxes.Grammar.Words.{scans-Prefix}
use libdomain.Syntaxes.Machines.{
  boolean, directory_string, distinguished_name, generalized_time, ia5string, numeric_string,
  octet_string, oid, printable_string, utc_time, is_boolean, is_directory_string, is_dn,
  is_generalized_time, is_ia5string, is_numeric_string, is_octet_string, is_oid,
  is_printable_string, is_utc_time,
}
use libdomain.Syntaxes.Validators.{
  unless_empty, unless_null, validate_boolean, validate_octet_string, validate_oid,
  validate_numeric_string, validate_printable_string, validate_case_ignore_string,
  validate_ia5_string, validate_utc_time, validate_generalized_time, validate_case_sensitive_string,
  validate_directory_string, validate_dn, validate_dn_with_octet_string, validate_dn_with_string,
}

-- The syntaxes of the directory.
pub data Syntax : Type 0 where
  on_boolean on_octet_string on_oid on_numeric_string on_printable_string on_case_ignore_string
        on_ia5_string on_utc_time on_generalized_time on_case_sensitive_string on_directory_string
        on_dn on_dn_with_octet_string on_dn_with_string :
      Syntax

-- The function of the code.
unfoldable pub validate : Syntax → Option CString → Bool
validate on_boolean value = validate_boolean value
validate on_octet_string value = validate_octet_string value
validate on_oid value = validate_oid value
validate on_numeric_string value = validate_numeric_string value
validate on_printable_string value = validate_printable_string value
validate on_case_ignore_string value = validate_case_ignore_string value
validate on_ia5_string value = validate_ia5_string value
validate on_utc_time value = validate_utc_time value
validate on_generalized_time value = validate_generalized_time value
validate on_case_sensitive_string value = validate_case_sensitive_string value
validate on_directory_string value = validate_directory_string value
validate on_dn value = validate_dn value
validate on_dn_with_octet_string value = validate_dn_with_octet_string value
validate on_dn_with_string value = validate_dn_with_string value

-- The language of its machine.
abbrev pub language : Syntax → Grammar
language on_boolean = boolean
language on_octet_string = octet_string
language on_oid = oid
language on_numeric_string = numeric_string
language on_printable_string = printable_string
language on_case_ignore_string = directory_string
language on_ia5_string = ia5string
language on_utc_time = utc_time
language on_generalized_time = generalized_time
language on_case_sensitive_string = directory_string
language on_directory_string = directory_string
language on_dn = distinguished_name
language on_dn_with_octet_string = distinguished_name
language on_dn_with_string = distinguished_name

abbrev pub may_be_empty : Syntax → Bool
may_be_empty on_ia5_string = true
may_be_empty _ = false

-- A text of which the language has a continuation, and that is not empty if it must not be.
abbrev pub Accepted : Syntax → Option CString → Type 0
Accepted s value =
    (text : CString) × (value ≡ some text)
    × ((is_nil text ≡ false) ⊎ (may_be_empty s ≡ true))
    × ((rest : CString) × Matches (language s) (text ++ rest))

unless_empty-Accepted :
    (g : Grammar) (value : Option CString)
    → (unless_empty value (λ text. scans g text) ≡ true) ↔ (
        (text : CString) × (value ≡ some text)
        × ((is_nil text ≡ false) ⊎ (◌≡◌ {A = Bool} false true))
        × ((rest : CString) × Matches g (text ++ rest)))
unless_empty-Accepted g none = ((λ h. cc), (λ (t, p, q, m). cc))
unless_empty-Accepted g (some []) = (
  (λ h. cc),
  (λ (t, p, q, m). elim q [
    | inl filled ↦ let e : t ≡ [] = cc in let f : true ≡ false = rw e at filled in cc
    | inr no' ↦ cc
  ]),
)
unless_empty-Accepted g (some (c ∷ text)) = (
  (λ h. (c ∷ text, refl, inl refl, (scans-Prefix g (c ∷ text)).0 h)),
  (λ (t, p, q, m). let e : t ≡ c ∷ text = cc in (scans-Prefix g (c ∷ text)).1 (rw e at m)),
)

unless_null-Accepted :
    (g : Grammar) (value : Option CString)
    → (unless_null value (λ text. scans g text) ≡ true) ↔ (
        (text : CString) × (value ≡ some text)
        × ((is_nil text ≡ false) ⊎ (◌≡◌ {A = Bool} true true))
        × ((rest : CString) × Matches g (text ++ rest)))
unless_null-Accepted g none = ((λ h. cc), (λ (t, p, q, m). cc))
unless_null-Accepted g (some text) = (
  (λ h. (text, refl, inr refl, (scans-Prefix g text).0 h)),
  (λ (t, p, q, m). let e : t ≡ text = cc in (scans-Prefix g text).1 (rw e at m)),
)

-- A validator that asks a machine alone accepts a value exactly if it is a text, and not empty except as
-- an IA5 string, that is the beginning of a word of the machine's language: not only the words
-- themselves, since the machines report an error only where no word can follow.
pub validate-Accepted :
    (s : Syntax) (value : Option CString) → (validate s value ≡ true) ↔ Accepted s value
unfolding validate validate_boolean validate_octet_string validate_oid validate_numeric_string
    validate_printable_string validate_case_ignore_string validate_ia5_string validate_utc_time
    validate_generalized_time validate_case_sensitive_string validate_directory_string validate_dn
    validate_dn_with_octet_string validate_dn_with_string is_boolean is_directory_string is_dn
    is_generalized_time is_ia5string is_numeric_string is_octet_string is_oid is_printable_string
    is_utc_time
validate-Accepted on_boolean value = unless_empty-Accepted boolean value
validate-Accepted on_octet_string value = unless_empty-Accepted octet_string value
validate-Accepted on_oid value = unless_empty-Accepted oid value
validate-Accepted on_numeric_string value = unless_empty-Accepted numeric_string value
validate-Accepted on_printable_string value = unless_empty-Accepted printable_string value
validate-Accepted on_case_ignore_string value = unless_empty-Accepted directory_string value
validate-Accepted on_ia5_string value = unless_null-Accepted ia5string value
validate-Accepted on_utc_time value = unless_empty-Accepted utc_time value
validate-Accepted on_generalized_time value = unless_empty-Accepted generalized_time value
validate-Accepted on_case_sensitive_string value = unless_empty-Accepted directory_string value
validate-Accepted on_directory_string value = unless_empty-Accepted directory_string value
validate-Accepted on_dn value = unless_empty-Accepted distinguished_name value
validate-Accepted on_dn_with_octet_string value = unless_empty-Accepted distinguished_name value
validate-Accepted on_dn_with_string value = unless_empty-Accepted distinguished_name value
