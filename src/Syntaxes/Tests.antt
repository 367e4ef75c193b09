-- ===== src/Syntaxes/Tests.antt =====
-- The validators at concrete texts, those of tests/auto/ldap_syntaxes among them.
use libdomain.Prelude.{◌≡◌, ◌↔◌, refl, true, false, some, codes}
use libdomain.Syntaxes.Grammar.{scans}
use libdomain.Syntaxes.Accepted.{on_boolean, validate, Accepted, validate-Accepted}
use libdomain.Syntaxes.Integers.Ranges.{InRange, validate_integer-InRange}
use libdomain.Syntaxes.Machines.{
  is_boolean, is_integer, is_oid, is_utc_time, is_generalized_time, is_dn,
}
use libdomain.Syntaxes.Validators.{
  validate_boolean, validate_integer, validate_large_integer, validate_oid, validate_dn,
  validate_utc_time, validate_generalized_time, strtol,
}

boolean_test :
    (validate_boolean (some (codes "TRUE")) ≡ true)
    × (validate_boolean (some (codes "false")) ≡ true)
    × (validate_boolean (some (codes "yes")) ≡ false)
    × (validate_boolean (some (codes "TRUEX")) ≡ false)
    × (validate_boolean (some (codes "TR")) ≡ true)
unfolding validate_boolean is_boolean scans
boolean_test = (refl, refl, refl, refl, refl)

integer_test :
    (validate_integer (some (codes "-2147483648")) ≡ true)
    × (validate_integer (some (codes "2147483648")) ≡ false)
    × (validate_integer (some (codes "007")) ≡ false)
    × (validate_integer (some (codes "-0")) ≡ false)
    × (validate_integer (some (codes "-")) ≡ true)
unfolding validate_integer is_integer strtol scans
integer_test = (refl, refl, refl, refl, refl)

large_integer_test :
    (validate_large_integer (some (codes "-9223372036854775808")) ≡ true)
    × (validate_large_integer (some (codes "9223372036854775808")) ≡ false)
unfolding validate_large_integer is_integer strtol scans
large_integer_test = (refl, refl)

names_test :
    (validate_oid (some (codes "1.3.6.1")) ≡ true)
    × (validate_oid (some (codes "cn")) ≡ true)
    × (validate_oid (some (codes "1..2")) ≡ false)
    × (validate_dn (some (codes "cn=ann,dc=example,dc=org")) ≡ true)
    × (validate_dn (some (codes "cn=a\"b")) ≡ false)
unfolding validate_oid is_oid validate_dn is_dn scans
names_test = (refl, refl, refl, refl, refl)

times_test :
    (validate_utc_time (some (codes "9912312359Z")) ≡ true)
    × (validate_utc_time (some (codes "9913312359Z")) ≡ false)
    × (validate_generalized_time (some (codes "20230101120000.5+0300")) ≡ true)
    × (validate_generalized_time (some (codes "20230101250000Z")) ≡ false)
unfolding validate_utc_time is_utc_time validate_generalized_time is_generalized_time scans
times_test = (refl, refl, refl, refl)

validate-Accepted_example :
    (validate on_boolean (some (codes "TR")) ≡ true) ↔ Accepted on_boolean (some (codes "TR"))
validate-Accepted_example = validate-Accepted on_boolean (some (codes "TR"))

validate_integer-InRange_example :
    ((validate_integer (some (codes "-17")) ≡ true) ↔ InRange 31 (some (codes "-17")))
    × ((validate_large_integer (some (codes "-17")) ≡ true) ↔ InRange 63 (some (codes "-17")))
validate_integer-InRange_example = validate_integer-InRange (some (codes "-17"))
