-- ===== src/Syntaxes/Validators.antt =====
-- src/ldap_syntaxes.c: the validators. A value is NULL or a text.
use libdomain.Prelude.{
  ℕ, ◌+◌, ◌-◌, ◌*◌, ◌^◌, ◌==◌, ◌||◌, ◌&&◌, Bool, true, false, Option, none, some, [], ◌∷◌, ltb, leb,
  if◌then◌else◌, is_nil, length, ℤ, pos, negsuc, CString,
}
use libdomain.Syntaxes.Machines.{
  is_boolean, is_integer, is_octet_string, is_oid, is_numeric_string, is_printable_string,
  is_ia5string, is_directory_string, is_utc_time, is_generalized_time, is_dn,
}

-- `if (!value || strlen (value) == 0) return false;`
abbrev pub unless_empty : Option CString → (CString → Bool) → Bool
unless_empty none rest = false
unless_empty (some text) rest = if is_nil text then false else rest text

abbrev pub unless_null : Option CString → (CString → Bool) → Bool
unless_null none rest = false
unless_null (some text) rest = rest text

abbrev pub is_digit : ℕ → Bool
is_digit c = leb b'0' c && leb c b'9'

-- The number that the digits at the start of a text make, after those of `n`.
abbrev pub read_digits : ℕ → CString → ℕ
read_digits n [] = n
read_digits n (c ∷ text) = if is_digit c then read_digits (n * 10 + (c - b'0')) text else n

abbrev pub negated : ℕ → ℤ
negated n = if n == 0 then pos 0 else negsuc (n - 1)

-- The integer at the start of a text without blanks.
abbrev pub read_integer : CString → ℤ
read_integer [] = pos 0
read_integer (c ∷ text) =
    if c == b'-' then negated (read_digits 0 text) else pos (read_digits 0 (c ∷ text))

-- -2 ^ w ≤ z < 2 ^ w, for the `w` bits beside the sign.
abbrev pub fits : ℕ → ℤ → Bool
fits w (pos n) = ltb n (2 ^ w)
fits w (negsuc n) = ltb n (2 ^ w)

-- `strtol` and `strtoll` in base 10, where both types have 64 bits: `none` if they set `errno` to ERANGE.
unfoldable pub strtol : CString → Option ℤ
strtol text = let z = read_integer text in if fits 63 z then some z else none

-- `i < j`
abbrev pub less : ℤ → ℤ → Bool
less (pos a) (pos b) = ltb a b
less (pos a) (negsuc b) = false
less (negsuc a) (pos b) = true
less (negsuc a) (negsuc b) = ltb b a

unfoldable pub validate_boolean : Option CString → Bool
validate_boolean value = unless_empty value is_boolean

-- `sizeof ("-2147483648")` is 12, and the buffer holds the text with its NUL.
unfoldable pub validate_integer : Option CString → Bool
validate_integer value = unless_empty value λ text.
    if leb 12 (length text)
    then false
    else if is_integer text
    then elim (strtol text) [
      | none ↦ false
      | some i ↦ if less i (negsuc 2147483647) || less (pos 2147483647) i then false else true
    ]
    else false

unfoldable pub validate_octet_string : Option CString → Bool
validate_octet_string value = unless_empty value is_octet_string

unfoldable pub validate_oid : Option CString → Bool
validate_oid value = unless_empty value is_oid

unfoldable pub validate_numeric_string : Option CString → Bool
validate_numeric_string value = unless_empty value is_numeric_string

unfoldable pub validate_printable_string : Option CString → Bool
validate_printable_string value = unless_empty value is_printable_string

unfoldable pub validate_case_ignore_string : Option CString → Bool
validate_case_ignore_string value = unless_empty value is_directory_string

-- The empty text is not refused before the machine.
unfoldable pub validate_ia5_string : Option CString → Bool
validate_ia5_string value = unless_null value is_ia5string

unfoldable pub validate_utc_time : Option CString → Bool
validate_utc_time value = unless_empty value is_utc_time

unfoldable pub validate_generalized_time : Option CString → Bool
validate_generalized_time value = unless_empty value is_generalized_time

unfoldable pub validate_case_sensitive_string : Option CString → Bool
validate_case_sensitive_string value = unless_empty value is_directory_string

unfoldable pub validate_directory_string : Option CString → Bool
validate_directory_string value = unless_empty value is_directory_string

-- `sizeof ("-9223372036854775808")` is 21.
unfoldable pub validate_large_integer : Option CString → Bool
validate_large_integer value = unless_empty value λ text.
    if leb 21 (length text)
    then false
    else if is_integer text
    then elim (strtol text) [ none ↦ false | some i ↦ true ]
    else false

unfoldable pub validate_object_security_descriptor : Option CString → Bool
validate_object_security_descriptor value = false

unfoldable pub validate_dn : Option CString → Bool
validate_dn value = unless_empty value is_dn

unfoldable pub validate_dn_with_octet_string : Option CString → Bool
validate_dn_with_octet_string value = unless_empty value is_dn

unfoldable pub validate_dn_with_string : Option CString → Bool
validate_dn_with_string value = unless_empty value is_dn

unfoldable pub validate_or_name : Option CString → Bool
validate_or_name value = false

unfoldable pub validate_presentation_address : Option CString → Bool
validate_presentation_address value = false

unfoldable pub validate_access_point : Option CString → Bool
validate_access_point value = false
