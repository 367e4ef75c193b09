-- ===== src/Schema/Parsers.antt =====
-- src/ldap_parsers.c. The functions of src/parsers, which the build compiles, are parameters; they read a
-- text with its length, which here is a string.
use libdomain.Prelude.{Option, none, some, if◌then◌else◌, is_nil, CString}
use libdomain.Schema.Tables.{LdapAttributeType, LdapObjectClass}

unfoldable pub parse_attribute_type :
    (parse_attribute_type_description : CString → Option LdapAttributeType)
    → Option CString
    → Option LdapAttributeType
parse_attribute_type parse_attribute_type_description none = none
parse_attribute_type parse_attribute_type_description (some value) =
    if is_nil value then none else parse_attribute_type_description value

unfoldable pub parse_object_class :
    (parse_object_class_description : CString → Option LdapObjectClass)
    → Option CString
    → Option LdapObjectClass
parse_object_class parse_object_class_description none = none
parse_object_class parse_object_class_description (some value) =
    if is_nil value then none else parse_object_class_description value
