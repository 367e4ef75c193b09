-- ===== src/Connection/Sample.antt =====
-- Connections and libraries at concrete values, for the tests of every component.
use libdomain.Prelude.{false, none, some, [], null, pos, negsuc, update, arith}
use libdomain.Ldap.{World, Answer, ldap_success, res_unsolicited}
use libdomain.RequestQueue.{Store, request_queue_new}
use libdomain.RequestQueue.Simple.{new-IsQueue}
use libdomain.Connection.{
  Connection, ConnectionState, Config, bind_simple, type_uninitialized, valid, max_requests,
}
use libdomain.Connection.Waiting.{Waiting}
use libdomain.Connection.Configure.{blank_request, blank_defaults}
use libdomain.Entry.{zero_search_request}

-- Everything succeeds; allocations are at address 5, and no reply is there.
abbrev pub good : Answer
good = record {
  code = ldap_success;
  result_code = ldap_success;
  msgid = pos 7;
  tag = res_unsolicited;
  message = record { id = pos 7; error_code = ldap_success; entries = [] };
  ptr = 5;
  number = pos 3;
  text = none;
  flag = false;
}

abbrev pub accepting : World
accepting past = good

abbrev pub plain : Config
plain = record {
  server = none;
  protocol_version = pos 3;
  chase_referrals = false;
  use_start_tls = false;
  use_sasl = false;
  bind_type = bind_simple;
  sasl_mechanism = none;
  sasl_passwd = none;
  tls_ca_cert_file = none;
  tls_ca_cert_path = none;
  tls_cert_file = none;
  tls_key_file = none;
  search_timelimit = pos 0;
  network_timeout = pos 100;
  bind_dn = none;
  bind_passwd = none;
}

abbrev pub no_queue : Store
no_queue = record {
  queue = λ _. record { head = null; tail = null; size = 0; capacity = pos 0 };
  prev = λ _. null;
}

-- A connection with an empty queue at 5 and a machine at 9 in state `st`.
abbrev pub idle_in : ConnectionState → Connection
idle_in st = record {
  world = accepting;
  trace = [];
  config = plain;
  handlers_installed = false;
  event_base = valid tt;
  read_event = valid tt;
  write_event = valid tt;
  on_error_operation = none;
  bind_type = bind_simple;
  directory_type = type_uninitialized;
  msgid = negsuc 0;
  schema = 5;
  store = (request_queue_new 5 max_requests no_queue).1;
  callqueue = 5;
  read_requests = λ _. blank_request;
  write_requests = λ _. blank_request;
  search_requests = λ _. zero_search_request;
  n_read_requests = 0;
  n_write_requests = 0;
  n_search_requests = 0;
  n_reconnect_attempts = 4;
  machines = update (λ _. none) 9 (some st);
  state_machine = 9;
  ldap_defaults = valid blank_defaults;
  schema_entry_path = none;
}

pub idle-Waiting : (st : ConnectionState) → Waiting 0 (idle_in st)
idle-Waiting st = record {
  from = omega arith;
  bound = omega arith;
  queued = new-IsQueue 5 max_requests no_queue (omega arith) (omega arith);
}
