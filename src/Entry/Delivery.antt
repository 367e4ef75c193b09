-- ===== src/Entry/Delivery.antt =====
-- What `search_on_read` of src/entry.c gives to the callback of a search.
use libdomain.Prelude.{ℕ, List}
use libdomain.Connection.{Connection, SearchCallback, ReturnCode, M, pure, ◌>>=◌, ◌>>◌}
use libdomain.Entry.{connection_remove_search_request}
use libdomain.Entry.Table.{LdEntry}
use libdomain.Entry.Replies.{Callbacks}

-- What follows the reading of the entries: the callback, with the user's data of the search, and the removal
-- of the search.
abbrev pub hand_over : Callbacks → ℕ → SearchCallback → List LdEntry → ℕ → M ReturnCode
hand_over callbacks i f es data' = do
  rc ← callbacks.on_search f es data'
  connection_remove_search_request i
  pure rc
