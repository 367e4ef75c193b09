-- ===== src/Connection/Prompts.antt =====
-- src/connection.c: `sasl_interact_gssapi`, the callback that answers the prompts of the SASL library.
-- It reads the defaults through a pointer that may be NULL; a connection keeps them in `ldap_defaults`.
use libdomain.Prelude.{
  ◌≡◌, refl, ℕ, ◌==◌, Option, none, some, List, [], map, if◌then◌else◌, length, negsuc, Ptr, null,
  CString,
}
use libdomain.Ldap.{LdapCode, ldap_success, other_code}
use libdomain.Connection.{SaslDefaults}

-- `SASL_CB_GETREALM` and so on; a list of prompts ends where the library has `SASL_CB_LIST_END`.
pub data PromptId : Type 0 where
  cb_getrealm cb_authname cb_pass cb_user cb_noechoprompt cb_echoprompt : PromptId
  cb_other : ℕ → PromptId

-- `sasl_interact_t`, as far as the function reads and writes it.
pub record Prompt : Type 0 where
  pub id : PromptId
  pub defresult : Option CString
  pub result : Option CString
  pub len : ℕ

-- `LDAP_PARAM_ERROR` is -9.
abbrev pub ldap_param_error : LdapCode
ldap_param_error = other_code (negsuc 8)

-- The value that the `switch` leaves in `dflt`.
unfoldable pub default_of : Option SaslDefaults → Prompt → Option CString
default_of none prompt = prompt.defresult
default_of (some defaults) prompt = elim prompt.id [
  | cb_getrealm ↦ defaults.realm
  | cb_authname ↦ defaults.authcid
  | cb_pass ↦ defaults.passwd
  | cb_user ↦ defaults.authzid
  | cb_noechoprompt ↦ prompt.defresult
  | cb_echoprompt ↦ prompt.defresult
  | cb_other _ ↦ prompt.defresult
]

-- `dflt && *dflt ? dflt : ""`
abbrev pub or_empty_text : Option CString → CString
or_empty_text none = []
or_empty_text (some text) = text

-- One round of the loop.
unfoldable pub answer : Option SaslDefaults → Prompt → Prompt
unfolding default_of
answer defaults prompt =
    let text = or_empty_text (default_of defaults prompt) in
    record prompt { result = some text; len = length text }

unfoldable pub sasl_interact_gssapi :
    (ld : Ptr) → Option SaslDefaults → List Prompt → LdapCode × List Prompt
unfolding answer
sasl_interact_gssapi ld defaults prompts =
    if ld == null
    then (ldap_param_error, prompts)
    else (ldap_success, map (answer defaults) prompts)

-- A prompt that asks for a password.
abbrev pub IsPass : Prompt → Type 0
IsPass prompt = prompt.id ≡ cb_pass

-- Defaults without a password answer with the empty text, whatever the prompt proposes.
pub answer-empty :
    (d : SaslDefaults) (prompt : Prompt)
    → d.passwd ≡ none
    → IsPass prompt
    → (answer (some d) prompt).result ≡ some []
unfolding answer default_of
answer-empty d prompt blank asks = rw (asks, blank) refl
