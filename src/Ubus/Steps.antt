-- ===== src/Ubus/Steps.antt =====
-- src/ubus.rs: what holds between the steps of the broker, and that each step keeps it.
use lwrt.Base.{
  ℕ, ◌+◌, ◌%◌, ◌≤◌, ◌<◌, Bool, true, false, not, List, [], ◌∷◌, Option, none, some, ◌==◌, ◌≡◌, refl,
  sym, subst, inl, inr, All, All-append, arith, Bool-cases, Option-cases, ==_iff, if_either,
}
use lwrt.Base.Bytes.{Bytes, codes}
use lwrt.Base.Map.{get, insert, remove, nat_key, get-insert, get-remove, same_key, same_key_iff}
use lwrt.Text.{equal, filter_by, is_empty, trim}
use lwrt.Text.Utf8.{chars}
use lwrt.Json.{Floats}
use lwrt.Json.Parser.{Result, parse, ok, err}
use lwrt.Ubus.{
  Probes, Object, Bus, Ids, V, Op, list, call, reply, add, send, listen, unknown, op_of, has, put,
  discard, str_field, find_owner, builtin_call,
}
use lwrt.Ubus.Broker.{
  handle_request, u64_mod, Event, opened, line, closed, route, on_call, answered, on_reply,
  reqid_of, data_of, register, on_add, on_send, on_listen, dispatch, parsed_line, handle_request,
  handle_line, open_conn, close_conn, step,
}
use lwrt.Text.Filtering.{filter_by-All, kept, not-true, both}
use lwrt.Ubus.Sets.{Distinct, has-put, has-discard, Distinct-filter_by, Distinct-append}

-- Paths are distinct; owners and listeners are open connections; ids are at most the counters.
pub record IsSound (b : Bus) : Type 0 where
  pub distinct : Distinct b.objects
  pub owned : All (λ o. has o.owner b.conns ≡ true) b.objects
  pub listening : (i : ℕ) → has i b.listeners ≡ true → has i b.conns ≡ true
  pub numbered : (i : ℕ) → has i b.conns ≡ true → i ≤ b.next_conn
  pub asked : (r c : ℕ) → get r b.pending ≡ some c → r ≤ b.next_req

-- One more than a counter.
abbrev pub next : ℕ → ℕ
next n = (n + 1) % u64_mod

pub next_small : (n : ℕ) → n + 1 < u64_mod → next n ≡ n + 1
next_small n h = omega arith

-- The keys of a map of calls are at most `n`.
abbrev Within : ℕ → List (ℕ × ℕ) → Type 0
Within n m = (r c : ℕ) → get r m ≡ some c → r ≤ n

insert-Within : (n k id : ℕ) (m : List (ℕ × ℕ)) → n ≤ k → Within n m → Within k (insert k id m)
insert-Within n k id m l h r c e = elim (Bool-cases (same_key k r)) [
  | inl same ↦ omega (arith, (same_key_iff k r).0 same)
  | inr other ↦ omega (arith, h r c (rw (get-insert k r id m, other) at e))
]

remove-Within : (n k : ℕ) (m : List (ℕ × ℕ)) → Within n m → Within n (remove k m)
remove-Within n k m h r c e = elim (Bool-cases (same_key k r)) [
  | inl same ↦ absurd (gone (rw (get-remove k r m, same) at e))
  | inr other ↦ h r c (rw (get-remove k r m, other) at e)
]
  where
    gone : {c : ℕ} → ¬ (none ≡ some c)
    gone e = cc

-- The invariant after the operations that change the broker.

route-IsSound :
    (fl : Floats) (p : Probes) (b : Bus) (id : ℕ) (method : Bytes) (args : V fl p) (o : Option ℕ)
    → b.next_req + 1 < u64_mod
    → IsSound b
    → IsSound (route fl p b id method args o).0
unfolding route
route-IsSound fl p b id method args none small h = h
route-IsSound fl p b id method args (some owner) small h = record {
  distinct = h.distinct;
  owned = h.owned;
  listening = h.listening;
  numbered = h.numbered;
  asked =
      subst (λ k. Within k (insert k id b.pending)) (sym (next_small b.next_req small))
        (insert-Within b.next_req (b.next_req + 1) id b.pending (omega arith) h.asked);
}

answered-IsSound :
    (fl : Floats) (p : Probes) (b : Bus) (id : ℕ) (found : V fl p) (o : Option ℕ)
    → IsSound b
    → IsSound (answered fl p b id found o).0
unfolding answered
answered-IsSound fl p b id found none h = h
answered-IsSound fl p b id found (some caller) h = record {
  distinct = h.distinct;
  owned = h.owned;
  listening = h.listening;
  numbered = h.numbered;
  asked = remove-Within b.next_req id b.pending h.asked;
}

abbrev q : ℕ → Bytes → Object → Bool
q c path o = not (equal o.path (c ∷ path))

apart :
    (c : ℕ) (path : Bytes) (os : List Object)
    → All (λ o. equal o.path (c ∷ path) ≡ false) (filter_by (q c path) os)
apart c path os =
    both (λ o. q c path o ≡ true) (λ o. q c path o ≡ true) (λ o. equal o.path (c ∷ path) ≡ false)
      (λ o h _. not-true (equal o.path (c ∷ path)) h) (filter_by (q c path) os) (kept (q c path) os)
      (kept (q c path) os)

abbrev object_of : Bytes → List Bytes → ℕ → Object
object_of path methods id = record { path = path; methods = methods; owner = id }

register-IsSound :
    (fl : Floats) (p : Probes) (b : Bus) (id : ℕ) (path : Bytes) (methods : List Bytes)
    → has id b.conns ≡ true
    → IsSound b
    → IsSound (register fl p b id path methods).0
unfolding register
register-IsSound fl p b id [] methods live h = h
register-IsSound fl p b id (c ∷ path) methods live h =
    let others = filter_by (q c path) b.objects in
    let new = object_of (c ∷ path) methods id in
    record {
      distinct =
          Distinct-append others new (Distinct-filter_by (q c path) b.objects h.distinct)
            (apart c path b.objects);
      owned =
          All-append (λ o. has o.owner b.conns ≡ true) others (new ∷ [])
            (filter_by-All (q c path) (λ o. has o.owner b.conns ≡ true) b.objects h.owned)
            (live, tt);
      listening = h.listening;
      numbered = h.numbered;
      asked = h.asked;
    }

on_listen-IsSound :
    (fl : Floats) (p : Probes) (b : Bus) (id : ℕ)
    → has id b.conns ≡ true
    → IsSound b
    → IsSound (on_listen fl p b id).0
unfolding on_listen
on_listen-IsSound fl p b id live h = record {
  distinct = h.distinct;
  owned = h.owned;
  listening = λ i e. elim (Bool-cases (id == i)) [
    | inl k ↦ subst (λ i. has i b.conns ≡ true) ((==_iff id i).0 k) live
    | inr k ↦ h.listening i (rw (has-put id i b.listeners, k) at e)
  ];
  numbered = h.numbered;
  asked = h.asked;
}

never : ¬ (false ≡ true)
never e = cc

open_conn-IsSound : (b : Bus) → b.next_conn + 1 < u64_mod → IsSound b → IsSound (open_conn b)
unfolding open_conn
open_conn-IsSound b small h = record {
  distinct = h.distinct;
  owned =
      both (λ o. has o.owner b.conns ≡ true) (λ o. has o.owner b.conns ≡ true)
        (λ o. has o.owner (put (next b.next_conn) b.conns) ≡ true) (λ o e _. still o.owner e)
        b.objects h.owned h.owned;
  listening = λ i e. still i (h.listening i e);
  numbered = λ i e. elim (Bool-cases (next b.next_conn == i)) [
    | inl k ↦ omega (arith, (==_iff (next b.next_conn) i).0 k)
    | inr k ↦ omega (
      arith,
      next_small b.next_conn small,
      h.numbered i (rw (has-put (next b.next_conn) i b.conns, k) at e),
    )
  ];
  asked = h.asked;
}
  where
    still : (i : ℕ) → has i b.conns ≡ true → has i (put (next b.next_conn) b.conns) ≡ true
    still i e =
        rw (has-put (next b.next_conn) i b.conns, e)
          (if_either (λ x. x ≡ true) (next b.next_conn == i) refl refl)

close_conn-IsSound : (b : Bus) (id : ℕ) → IsSound b → IsSound (close_conn id b)
unfolding close_conn
close_conn-IsSound b id h = record {
  distinct = Distinct-filter_by (λ o. not (o.owner == id)) b.objects h.distinct;
  owned =
      both (λ o. not (o.owner == id) ≡ true) (λ o. has o.owner b.conns ≡ true)
        (λ o. has o.owner (discard id b.conns) ≡ true)
        (λ o k e. not_closed o.owner (not-true (o.owner == id) k) e)
        (filter_by (λ o. not (o.owner == id)) b.objects) (kept (λ o. not (o.owner == id)) b.objects)
        (filter_by-All (λ o. not (o.owner == id)) (λ o. has o.owner b.conns ≡ true) b.objects
          h.owned);
  listening = λ i e. closes i b.listeners e λ other live. remains i other (h.listening i live);
  numbered = λ i e. closes i b.conns e λ other live. h.numbered i live;
  asked = h.asked;
}
  where
    -- who is left was there, and was another
    remains : (i : ℕ) → (id == i) ≡ false → has i b.conns ≡ true → has i (discard id b.conns) ≡ true
    remains i other live = rw (has-discard id i b.conns, other, live) refl

    not_closed :
        (i : ℕ) → (i == id) ≡ false → has i b.conns ≡ true → has i (discard id b.conns) ≡ true
    not_closed i other live = remains i (ground arith) live

    closes :
        {A : Type 0} (i : ℕ) (ids : Ids)
        → has i (discard id ids) ≡ true
        → ((id == i) ≡ false → has i ids ≡ true → A)
        → A
    closes i ids e k = elim (Bool-cases (id == i)) [
      | inl same ↦ absurd (never (rw (has-discard id i ids, same) at e))
      | inr other ↦ k other (rw (has-discard id i ids, other) at e)
    ]

on_call-IsSound :
    (fl : Floats) (p : Probes) (b : Bus) (id : ℕ) (req : V fl p)
    → b.next_req + 1 < u64_mod
    → IsSound b
    → IsSound (on_call fl p b id req).0
unfolding on_call
on_call-IsSound fl p b id req small h =
    let path = str_field (codes "path") req in
    let method = str_field (codes "method") req in
    elim (Option-cases (builtin_call fl p path method)) [
      | inl e ↦
          rw (e, on_call)
            (route-IsSound fl p b id method _ (find_owner path method b.objects) small h)
      | inr (found, e) ↦ rw (e, on_call) h
    ]

dispatch-IsSound :
    (fl : Floats) (p : Probes) (op : Op) (b : Bus) (id : ℕ) (req : V fl p)
    → b.next_req + 1 < u64_mod
    → has id b.conns ≡ true
    → IsSound b
    → IsSound (dispatch fl p op b id req).0
unfolding dispatch on_reply on_add on_send
dispatch-IsSound fl p list b id req small live h = h
dispatch-IsSound fl p call b id req small live h = on_call-IsSound fl p b id req small h
dispatch-IsSound fl p reply b id req small live h =
    answered-IsSound fl p b (reqid_of fl p req) (data_of fl p req)
      (get (reqid_of fl p req) b.pending) h
dispatch-IsSound fl p add b id req small live h = register-IsSound fl p b id _ _ live h
dispatch-IsSound fl p send b id req small live h = h
dispatch-IsSound fl p listen b id req small live h = on_listen-IsSound fl p b id live h
dispatch-IsSound fl p unknown b id req small live h = h

pub handle_request-IsSound :
    (fl : Floats) (p : Probes) (b : Bus) (id : ℕ) (req : V fl p)
    → b.next_req + 1 < u64_mod
    → has id b.conns ≡ true
    → IsSound b
    → IsSound (handle_request fl p b id req).0
unfolding handle_request
handle_request-IsSound fl p b id req =
    dispatch-IsSound fl p (op_of (str_field (codes "op") req)) b id req

parsed_line-IsSound :
    (fl : Floats) (p : Probes) (b : Bus) (id : ℕ) (bytes : Bytes) (r : Result (V fl p))
    → b.next_req + 1 < u64_mod
    → has id b.conns ≡ true
    → IsSound b
    → IsSound (parsed_line fl p b id bytes r).0
unfolding handle_request
parsed_line-IsSound fl p b id bytes (ok req) small live h =
    handle_request-IsSound fl p b id req small live h
parsed_line-IsSound fl p b id bytes (err e) small live h = h

-- A connection that is opened, a line that is heard and a connection that is closed keep the broker
-- sound: object paths distinct, owners and listeners connected, ids at most the counters.
pub step-IsSound :
    (fl : Floats) (p : Probes) (b : Bus) (e : Event)
    → b.next_conn + 1 < u64_mod
    → b.next_req + 1 < u64_mod
    → IsSound b
    → IsSound (step fl p b e).0
unfolding step handle_line
step-IsSound fl p b opened few small h = open_conn-IsSound b few h
step-IsSound fl p b (line id bytes) few small h = elim (Bool-cases (has id b.conns)) [
  | inl live ↦ rw live (elim (Bool-cases (is_empty (trim (chars bytes)))) [
    | inl blank ↦ rw blank h
    | inr full ↦ rw full (parsed_line-IsSound fl p b id bytes (parse fl bytes) small live h)
  ])
  | inr dead ↦ rw dead h
]
step-IsSound fl p b (closed id) few small h = elim (Bool-cases (has id b.conns)) [
  | inl live ↦ rw live (close_conn-IsSound b id h)
  | inr dead ↦ rw dead h
]
