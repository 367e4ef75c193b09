-- ===== src/Lib.antt =====
-- Verification library of libdomain, a C library that manages LDAP domains over an asynchronous
-- connection (src/ of the repository).
--
-- The program. A session holds one connection (src/connection.c). A timer drives its state machine
-- (src/connection_state_machine.c): it opens the transport, binds, asks for the type of the directory
-- (src/directory.c), loads the schema (src/schema.c, src/openldap_schema.c, src/ad_schema.c) and then
-- runs; from the error state it closes and configures the connection again. Every request
-- (src/entry.c) takes the next slot of an array, with the message id and the handler of the reply, and
-- its node goes into an intrusive queue (src/request_queue.c). When the socket can be read,
-- connection_on_read takes the requests out, asks the library for their replies and calls the
-- handlers, which may send further requests, call the callbacks of the user, or set the state.
--
-- The files.
--   Prelude: names and helpers that all share; int values, pointers and C strings.
--   RequestQueue: src/request_queue.c on an explicit memory (Store), all six operations. Chain has the
--     predicate that a queue holds a list of nodes, Simple and Move the operations, Fifo the abstract
--     bounded list.
--   Ldap: the vocabulary of libldap, talloc, verto and glib: the calls and what they give back. The
--     libraries are a parameter, a function from the calls made so far to the answer to the last.
--   Connection: the structs of src/connection.h as one record with the memory of the state machines and
--     of the queue, and the monad of the functions on it, whose runs end with a value, with a fault
--     where C has no defined behaviour (a write outside an array, a use of freed memory) or where talloc
--     aborts the process, or without fuel. States, Bind, Configure and Replies follow src/connection.c and the small functions of the
--     state machine, Prompts the callback of the SASL library; below Replies, Answered and Outcomes have the
--     theorems on what a reply makes of the state. Ends has the postconditions, Waiting the
--     tie between the request array and the queue, Returning the conditions under which the opening
--     functions return.
--   Entry: the requests of src/entry.c and directory_get_type. Enqueue and SearchRequests have their
--     theorems, Table the entries, Attributes how they are read out, Memory the runs
--     that may lack memory, Replies the handlers of replies, Directory those on the type, Represented and
--     Delivery what the callback of a search gets.
--   Schema: the requests that load the schema and the test that it is there (src/schema.c,
--     src/openldap_schema.c, src/ad_schema.c). Tables has the four tables of a schema, over an interface
--     with the laws of GLib's hash tables, and its child Lookups what is found in them; Callbacks the
--     callbacks that fill them, with their theorems in Indexed and Loads,
--     and Parsers the two functions of src/ldap_parsers.c that they call.
--   Syntaxes: src/ldap_syntaxes.c (Validators) and the machines of src/syntaxes (Machines), whose regular
--     expressions and words are in Grammar; Accepted and Integers have the theorems.
--   StateMachine: csm_next_state and connection_update. Graph has the relation of the states, Loading and
--     Progress the conditions under which a step returns, Ticks the calls of the timer in a row, Reconnect
--     the error state.
--   Reading: connection_on_read. Keeps and Halting carry the tie through the handlers, Loop, Restore
--     and Unanswered through the loop.
--   Domain: the operations on entries of src/domain.c, which check their arguments, build the
--     distinguished name and the modifications, and send one request. Requests has them as data with
--     the requests that they ask for, Rules the rules for their steps, Operations, Successes and
--     Refusals their theorems. Config has ld_create_config and ld_load_config, with libconfig as a
--     parameter, Session the functions ld_init, ld_free and those that install timers; Made, Setup and
--     Opened have their theorems, Driven that on a new session under its timer.
--   Accounts: src/user.c, src/group.c, src/computer.c, src/organizational_unit.c, src/attribute.c. Parents
--     has the operation on an entry that each function amounts to, Members the membership of groups,
--     Attributes the changes of single attributes, Lockout the blocking of users.
--   The files called Tests, and Connection.Sample, evaluate the theorems at concrete values.
--
-- The model. Numbers are natural numbers, or integers where the code has an int that can be negative.
-- A state machine is an address, since configuring replaces the machine of a connection while
-- csm_next_state still holds the old one. A pointer to something that the code frees is unset, valid or
-- dangling. The order of the library calls is kept in the trace, and every answer may depend on it. Calls
-- that only format a log line or free a message of the library are left out. A jump to an error label is
-- the continuation that stands at the label.
--
-- Fuel. The loop of connection_on_read has MAX_REQUESTS + 1 rounds of fuel. Every round takes a request
-- of the array out of the queue and none goes in twice between two resets of the count, so this is
-- enough as long as the callbacks of the user keep the tie between the array and the queue.
--
-- Callbacks. The functions behind on_error_operation and on_search_operation are a record with the law
-- that they keep that tie and end; the functions of the code that send requests do. The callbacks that fill
-- the schema end where every attribute of an entry has its values: at one without, which is left where
-- memory was lacking, their loop never ends.
--
-- Memory. A function that allocates asks the library, which may say no at any time; the predicate Ample
-- says that it never does, and Refused that a call gave NULL or an error. A port is printed with ten
-- digits at most, which is enough for an int. The table of an entry, which is one of GLib's, is written out
-- as the list of its attributes; the tables of the schema are an interface.
--
-- Not modelled: the parsers of descriptions in src/parsers, whose C code the build makes; the struct
-- fields that no function of the model reads; connection_on_write, which has no body; logging.
pub mod Prelude
pub mod RequestQueue
pub mod Ldap
pub mod Connection
pub mod Entry
pub mod Schema
pub mod StateMachine
pub mod Reading
pub mod Domain
pub mod Accounts
pub mod Syntaxes
