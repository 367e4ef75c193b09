-- ===== src/Syntaxes.antt =====
-- src/ldap_syntaxes.c and the machines of src/syntaxes: the validators of attribute values.
pub mod Grammar
pub mod Machines
pub mod Validators
pub mod Accepted
pub mod Integers
mod Tests
