-- ===== src/Reading/Unanswered.antt =====
-- `connection_on_read` when the server has answered nothing yet: every request waits on.
use libdomain.Prelude.{
  ℕ, zero, suc, ◌+◌, ◌-◌, ◌<◌, ◌==◌, ◌≡◌, ◌≢◌, refl, ◌∙◌, sym, ap, true, false, Option, none, some,
  List, [], ◌∷◌, ◌++◌, ltb, length, length-append, append-nil, append-cons, null, Bool-cases, arith,
  inl, inr, ℤ, is_nil,
}
use libdomain.Ldap.{World, Call, call_result, res_unsolicited}
use libdomain.RequestQueue.{request_queue_empty, request_queue_pop}
use libdomain.RequestQueue.Simple.{empty_lem}
use libdomain.Connection.{Connection, Request, M, log, max_requests, node_of, pure}
use libdomain.Connection.Ends.{Returns, Returns-bind, Returns-weaken}
use libdomain.Connection.Waiting.{Waiting, Waiting-log, nodes}
use libdomain.Entry.Replies.{Callbacks}
use libdomain.Reading.{place_of, read_loop, restore, connection_on_read}
use libdomain.Reading.Restore.{at, Restored, restore-Restored}
use libdomain.Reading.Loop.{pop-Waiting, here, is_nil-nodes}

-- `ldap_result` times out for every request.
abbrev pub AnswersNothing : World → Type 0
AnswersNothing w =
    (msgid : ℤ) (past : List Call) → (w (call_result msgid ∷ past)).tag ≡ res_unsolicited

-- The requests of `n` places from `k` on.
abbrev slice : (ℕ → Request) → ℕ → ℕ → List Request
slice f k zero = []
slice f k (suc n) = f k ∷ slice f (suc k) n

length-slice : (f : ℕ → Request) (k n : ℕ) → length (slice f k n) ≡ n
length-slice f k zero = refl
length-slice f k (suc n) = ap suc (length-slice f (suc k) n)

at-slice : (f : ℕ → Request) (k n j : ℕ) → j < n → at (slice f k n) j ≡ some (f (k + j))
at-slice f k zero j lt = absurd (omega arith)
at-slice f k (suc n) zero lt = let e : k + 0 ≡ k = omega arith in rw e refl
at-slice f k (suc n) (suc j) lt =
    let e : k + suc j ≡ suc k + j = omega arith in rw e (at-slice f (suc k) n j (omega arith))

none-some : {A : Type 0} {x : A} → none ≢ some x
none-some h = cc

some-injective : {A : Type 0} {x y : A} → some x ≡ some y → x ≡ y
some-injective h = cc

-- The loop gathers the requests from place `k` on.
record Gathered (c : Connection) (all : List Request) (p : Option (List Request)) (d : Connection)
    : Type 0 where
  gathered : p ≡ some all
  out : Waiting d.n_read_requests d
  count : d.n_read_requests ≡ c.n_read_requests

loop-Gathered :
    (callbacks : Callbacks) (fuel k : ℕ) (pending : List Request) (c : Connection)
    → AnswersNothing c.world
    → Waiting k c
    → max_requests < fuel + k
    → length pending ≡ k
    → Returns
        (Gathered c (pending ++ slice c.read_requests k (c.n_read_requests - k)))
        (read_loop callbacks fuel pending c)
unfolding read_loop
loop-Gathered callbacks zero k pending c quiet w enough few =
    absurd (omega (arith, w.from, w.bound))
loop-Gathered callbacks (suc fuel) k pending c quiet w enough few =
    let n = c.n_read_requests in
    let waits = nodes k (n - k) in
    let is_empty : request_queue_empty c.callqueue c.store ≡ is_nil waits =
      empty_lem waits w.queued in
    elim (Bool-cases (ltb k n)) [
      | inr none_left ↦
          let all_out : n ≡ k = ground (arith, w.from) in
          let nothing : is_nil waits ≡ true = is_nil-nodes k (n - k) ∙ ground arith in
          rw (is_empty ∙ nothing) (record {
            gathered =
                let nothing_more : n - k ≡ 0 = omega (arith, all_out) in
                ap some (
                  sym (append-nil pending)
                  ∙ ap (λ m. pending ++ slice c.read_requests k m) (sym nothing_more));
            out = here k c w all_out;
            count = refl;
          })
      | inl left ↦
          let something : is_nil waits ≡ false = is_nil-nodes k (n - k) ∙ ground arith in
          let (top, w₁) = pop-Waiting k c w (ground arith) in
          let real : (node_of k == null) ≡ false = ground arith in
          let room : ltb (length pending) max_requests ≡ true = ground (arith, w.bound) in
          let r = c.read_requests (place_of (node_of k)) in
          let call = call_result r.msgid in
          let c₁ = log call (record c { store = (request_queue_pop c.callqueue c.store).1 }) in
          let more : k < n = ground arith in
          let split : suc (n - suc k) ≡ n - k = omega (arith, more) in
          let place : place_of (node_of k) ≡ k = omega arith in
          let same : r ≡ c.read_requests k = ap c.read_requests place in
          let others = slice c.read_requests (suc k) (n - suc k) in
          let joined : (pending ++ r ∷ []) ++ slice c.read_requests (suc k) (n - suc k)
              ≡ pending ++ slice c.read_requests k (n - k) =
            append-cons pending r others
            ∙ ap (λ x. pending ++ x ∷ others) same
            ∙ ap (λ m. pending ++ slice c.read_requests k m) split in
          rw (is_empty ∙ something, top, real, quiet r.msgid c.trace, room)
            (Returns-weaken _ _ (read_loop callbacks fuel (pending ++ r ∷ []) c₁)
              (loop-Gathered callbacks fuel (suc k) (pending ++ r ∷ []) c₁ quiet
                (Waiting-log (suc k) call _ w₁) (omega (arith, enough))
                (omega (arith, few, length-append {0} pending (r ∷ []))))
              (λ p d g. record {
                gathered = g.gathered ∙ ap some joined;
                out = g.out;
                count = g.count;
              }))
    ]

-- The requests of `c`, in their places and waiting.
abbrev pub AllWait : Connection → Unit {0} → Connection → Type 0
AllWait c x c' =
    Waiting 0 c'
    × (c'.n_read_requests ≡ c.n_read_requests)
    × ((j : ℕ) → j < c.n_read_requests → c'.read_requests j ≡ c.read_requests j)

restored-AllWait :
    (c : Connection) (p : Option (List Request)) (d : Connection)
    → Gathered c (slice c.read_requests 0 (c.n_read_requests - 0)) p d
    → Returns
        (AllWait c)
        ((elim p as (λ _. M (Unit {0})) [ none ↦ pure tt | some pending ↦ restore pending ]) d)
restored-AllWait c none d g = absurd (none-some g.gathered)
restored-AllWait c (some pending) d g =
    let n = c.n_read_requests in
    let all = slice c.read_requests 0 (n - 0) in
    let e : pending ≡ all = some-injective g.gathered in
    let total : length pending ≡ n =
      ap length e ∙ length-slice c.read_requests 0 (n - 0) ∙ omega arith in
    Returns-weaken (λ _. Restored pending) (AllWait c) (restore pending d)
      (restore-Restored pending d g.out (omega (arith, total, g.count)))
      (λ _ c' r. (
        r.waits,
        r.count ∙ total,
        λ j lt.
            let start : 0 + j ≡ j = omega arith in
            r.places j (c.read_requests j) (
              ap (λ xs. at xs j) e
              ∙ at-slice c.read_requests 0 (n - 0) j (omega arith)
              ∙ ap (λ i. some (c.read_requests i)) start),
      ))

-- If the server has answered none of the requests, `connection_on_read` returns, and afterwards the
-- same requests wait, each in its place, in the same order.
pub on_read-none_answered :
    (callbacks : Callbacks) (c : Connection)
    → AnswersNothing c.world
    → Waiting 0 c
    → Returns (AllWait c) (connection_on_read callbacks c)
unfolding connection_on_read
on_read-none_answered callbacks c quiet w =
    Returns-bind _ (AllWait c) (read_loop callbacks (max_requests + 1) [] c)
      (λ p. elim p as (λ _. M (Unit {0})) [ none ↦ pure tt | some pending ↦ restore pending ])
      (loop-Gathered callbacks (max_requests + 1) 0 [] c quiet w (omega arith) refl)
      (restored-AllWait c)
