-- ===== src/StateMachine/Loading.antt =====
-- The requests for the type of the directory and for the schema return, and keep the machine.
use libdomain.Prelude.{
  ℕ, suc, leb, ◌+◌, refl, Option, none, some, List, [], ◌∷◌, if◌then◌else◌, Ptr, CString, codes,
}
use libdomain.Ldap.{call_search, is_success}
use libdomain.Connection.{
  Connection, ConnectionState, ReturnCode, rc_success, rc_failure, DirectoryType,
  type_uninitialized, type_unknown, type_active_directory, type_openldap, type_free_ipa,
  SearchCallback, search_handler, directory_handler, M, log, max_requests, enqueue_request, pure,
  ◌>>=◌,
}
use libdomain.Connection.Ends.{Returns, Returns-bind, Returns-if}
use libdomain.Connection.Returning.{Able, Able-log, Able-less, After, events-Able, enqueue-Able}
use libdomain.Connection.Bind.{is_rc_success}
use libdomain.Entry.{search, record_search, directory_get_type}
use libdomain.Schema.{schema_load_openldap, schema_load_active_directory, ldap_schema_load}

module _ (ctx own : Ptr) (st : ConnectionState) where
  pub get_type-Able :
      (n : ℕ) (c : Connection)
      → Able ctx own st (suc n) c
      → Returns (After ctx own st n) (directory_get_type c)
  unfolding directory_get_type
  get_type-Able n c h =
      let k = call_search [] (codes "(objectClass=*)") (codes "*" ∷ []) in
      let a = c.world (k ∷ c.trace) in
      let h₁ = Able-log ctx own st (suc n) k c h in
      Returns-if (After ctx own st n) (is_success a.code) _ (pure rc_failure) (log k c)
        (λ _.
          Returns-bind (After ctx own st n) (After ctx own st n)
            (enqueue_request a.msgid directory_handler (log k c)) (λ _. pure rc_success)
            (enqueue-Able ctx own st n a.msgid directory_handler (log k c) h₁) (λ _ c₂ h₂. h₂))
        (λ _. Able-less ctx own st n _ h₁)

  pub search-Able :
      (n : ℕ) (base filter : CString) (attrs : List CString) (f : Option SearchCallback) (data' : ℕ)
      (c : Connection)
      → Able ctx own st (suc n) c
      → Returns (After ctx own st n) (search base filter attrs f data' c)
  unfolding search record_search
  search-Able n base filter attrs f data' c h =
      let k = call_search base filter attrs in
      let a = c.world (k ∷ c.trace) in
      let h₁ = Able-log ctx own st (suc n) k c h in
      Returns-if (After ctx own st n) (is_success a.code) _ (pure rc_failure) (log k c)
        (λ _.
          Returns-bind (After ctx own st n) (After ctx own st n)
            (enqueue_request a.msgid search_handler (log k c)) _
            (enqueue-Able ctx own st n a.msgid search_handler (log k c) h₁)
            (λ _ c₂ h₂.
              Returns-if (After ctx own st n) (leb max_requests (c₂.n_search_requests + 1))
                (pure rc_failure) _ c₂ (λ _. h₂)
                (λ _. events-Able ctx own st n c₂ _ h₂ refl refl refl refl refl refl refl)))
        (λ _. Able-less ctx own st n _ h₁)

-- From room for `k + 2` requests to room for `k`.
module _ (ctx own : Ptr) (st : ConnectionState) (k : ℕ) where
  abbrev pub Fine : M ReturnCode → Type 0
  Fine m = (c : Connection) → Able ctx own st (suc (suc k)) c → Returns (After ctx own st k) (m c)

  -- Two searches, the second only if the first succeeds.
  pub two-Fine :
      (n : ReturnCode → M ReturnCode) (base filter : CString) (attrs : List CString)
      (f : Option SearchCallback)
      → ((rc : ReturnCode) (c : Connection)
          → Able ctx own st (suc k) c
          → Returns (After ctx own st k) (n rc c))
      → Fine (search base filter attrs f 0 >>= n)
  two-Fine n base filter attrs f next c h =
      Returns-bind (After ctx own st (suc k)) (After ctx own st k) (search base filter attrs f 0 c)
        n (search-Able ctx own st (suc k) base filter attrs f 0 c h) next

  pub last-Able :
      (base filter : CString) (attrs : List CString) (f : Option SearchCallback) (x y : ReturnCode)
      (c : Connection)
      → Able ctx own st (suc k) c
      → Returns
          (After ctx own st k)
          ((search base filter attrs f 0 >>= λ rc. if is_rc_success rc then pure x else pure y) c)
  last-Able base filter attrs f x y c h =
      Returns-bind (After ctx own st k) (After ctx own st k) (search base filter attrs f 0 c)
        (λ rc. if is_rc_success rc then pure x else pure y)
        (search-Able ctx own st k base filter attrs f 0 c h)
        (λ rc d g.
          Returns-if (After ctx own st k) (is_rc_success rc) (pure x) (pure y) d (λ _. g) (λ _. g))

  pub openldap-Fine : Fine schema_load_openldap
  unfolding schema_load_openldap
  openldap-Fine = two-Fine _ _ _ _ _ (λ rc c h.
      Returns-if (After ctx own st k) (is_rc_success rc) _ (pure rc_failure) c
        (λ _. last-Able _ _ _ _ _ _ c h) (λ _. Able-less ctx own st k c h))

  pub option-Able :
      {A : Type 0} (o : Option A) (m : M ReturnCode) (f : A → M ReturnCode)
      → Fine m
      → ((a : A) → Fine (f a))
      → Fine (elim o as (λ _. M ReturnCode) [ none ↦ m | some a ↦ f a ])
  option-Able none m f hm hf = hm
  option-Able (some a) m f hm hf = hf a

  pub active_directory-Fine : Fine schema_load_active_directory
  unfolding schema_load_active_directory
  active_directory-Fine c h =
      option-Able c.schema_entry_path _ _
        (λ d g. last-Able _ _ _ _ _ _ d (Able-less ctx own st (suc k) d g))
        (λ path. two-Fine _ _ _ _ _ (λ rc d g.
          Returns-if (After ctx own st k) (is_rc_success rc) _ (pure rc_failure) d
            (λ _. last-Able _ _ _ _ _ _ d g) (λ _. Able-less ctx own st k d g)))
        c h

  pub schema_load-Fine : Fine ldap_schema_load
  unfolding ldap_schema_load
  schema_load-Fine c h = by_type c.directory_type c h
    where
      less : (d : Connection) → Able ctx own st (suc (suc k)) d → Able ctx own st k d
      less d g = Able-less ctx own st k d (Able-less ctx own st (suc k) d g)

      by_type :
          (t : DirectoryType)
          → Fine (elim t as (λ _. M ReturnCode) [
            | type_openldap ↦ schema_load_openldap
            | type_active_directory ↦ schema_load_active_directory
            | type_free_ipa ↦ pure rc_failure
            | type_unknown ↦ pure rc_success
            | type_uninitialized ↦ pure rc_success
          ])
      by_type type_openldap = openldap-Fine
      by_type type_active_directory = active_directory-Fine
      by_type type_free_ipa = less
      by_type type_unknown = less
      by_type type_uninitialized = less
