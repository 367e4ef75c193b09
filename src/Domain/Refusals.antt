-- ===== src/Domain/Refusals.antt =====
-- When the operations on entries of src/domain.c refuse.
use libdomain.Prelude.{
  ◌==◌, ◌≡◌, ◌≢◌, refl, ◌⊎◌, inl, inr, true, Option, none, some, [], if◌then◌else◌, is_nil, Ptr,
  null, CString, Bool-cases,
}
use libdomain.Connection.{Connection, ReturnCode, rc_failure, M, done}
use libdomain.Entry.Enqueue.{Sending, sending_add, sending_modify, sending_delete, sending_rename}
use libdomain.Domain.{
  check_handle, check_string, entry_dn, relative_dn, child_dn, ld_add_entry, ld_del_entry,
  ld_mod_entry, ld_rename_entry, ld_mod_entry_attrs,
}
use libdomain.Domain.Requests.{
  Operation, asked, given, operate, adding, modifying, deleting, renaming, changing,
}

some-none : {A : Type 0} {x : A} → some x ≢ none
some-none h = cc

-- The refusals, check by check.
module _ (c : Connection) where
  abbrev Refuses : M ReturnCode → Type 0
  Refuses m = m c ≡ done rc_failure c

  refuse_null :
      (handle : Ptr) (rest : M ReturnCode) → handle ≡ null → Refuses (check_handle handle rest)
  refuse_null handle rest h = rw h refl

  refuse_handle :
      (handle : Ptr) (rest : M ReturnCode) → Refuses rest → Refuses (check_handle handle rest)
  refuse_handle handle rest h = elim (Bool-cases (handle == null)) [
    | inl e ↦ rw e refl
    | inr e ↦ rw e h
  ]

  refuse_string :
      (text : Option CString) (g : CString → Option Sending) (rest : CString → M ReturnCode)
      → given text g ≡ none
      → ((t : CString) → g t ≡ none → Refuses (rest t))
      → Refuses (check_string text rest)
  refuse_string none g rest h next = refl
  refuse_string (some t) g rest h next = elim (Bool-cases (is_nil t)) [
    | inl e ↦ rw e refl
    | inr e ↦ rw e (next t (rw e at h))
  ]

  refuse_two :
      (handle : Ptr) (name parent : Option CString) (g : CString → CString → Sending)
      (rest : CString → CString → M ReturnCode)
      → (handle ≡ null) ⊎ ((given name λ n. given parent λ p. some (g n p)) ≡ none)
      → Refuses (check_handle handle (check_string name λ n. check_string parent λ p. rest n p))
  refuse_two handle name parent g rest (inl h) = refuse_null handle _ h
  refuse_two handle name parent g rest (inr h) = refuse_handle handle _ (
      refuse_string name (λ n. given parent λ p. some (g n p)) _ h
        (λ n hn. refuse_string parent (λ p. some (g n p)) _ hn (λ p hp. absurd (some-none hp))))

  refuse_three :
      (handle : Ptr) (old new parent : Option CString) (g : CString → CString → CString → Sending)
      (rest : CString → CString → CString → M ReturnCode)
      → (handle ≡ null) ⊎ ((given old λ m. given new λ n. given parent λ p. some (g m n p)) ≡ none)
      → Refuses (
          check_handle handle
            (check_string old λ m. check_string new λ n. check_string parent λ p. rest m n p))
  refuse_three handle old new parent g rest (inl h) = refuse_null handle _ h
  refuse_three handle old new parent g rest (inr h) = refuse_handle handle _ (
      refuse_string old (λ m. given new λ n. given parent λ p. some (g m n p)) _ h
        (λ m hm.
          refuse_string new (λ n. given parent λ p. some (g m n p)) _ hm
            (λ n hn.
              refuse_string parent (λ p. some (g m n p)) _ hn (λ p hp. absurd (some-none hp)))))

-- An operation whose handle is NULL, or that lacks a string or has an empty one, fails and changes
-- nothing: not even memory is asked for.
pub operate-refuses :
    (handle : Ptr) (o : Operation) (c : Connection)
    → (handle ≡ null) ⊎ (asked o [] ≡ none)
    → operate handle o c ≡ done rc_failure c
unfolding operate ld_add_entry ld_del_entry ld_mod_entry ld_rename_entry ld_mod_entry_attrs
operate-refuses handle (adding name parent prefix attrs) c h =
    refuse_two c handle name parent (λ n p. sending_add (entry_dn prefix n p) []) _ h
operate-refuses handle (modifying name parent prefix attrs) c h =
    refuse_two c handle name parent (λ n p. sending_modify (entry_dn prefix n p) []) _ h
operate-refuses handle (deleting name parent prefix) c h =
    refuse_two c handle name parent (λ n p. sending_delete (entry_dn prefix n p)) _ h
operate-refuses handle (renaming old new parent prefix) c h =
    refuse_three c handle old new parent
      (λ m n p. sending_rename (entry_dn prefix m p) (relative_dn prefix n) p true) _ h
operate-refuses handle (changing name parent prefix attrs op) c h =
    refuse_two c handle name parent
      (λ n p. sending_modify (if is_nil prefix then child_dn n p else entry_dn prefix n p) []) _ h
