-- ===== src/Ubus/Routing.antt =====
-- src/ubus.rs: a call to a provider and the reply that comes back.
use lwrt.Base.{
  ℕ, ◌+◌, ◌<◌, true, ◌&&◌, List, [], ◌∷◌, none, some, length, ◌≡◌, refl, sym, subst, ap, inl, inr,
  All, arith, Bool-cases,
}
use lwrt.Base.Bytes.{Bytes, codes}
use lwrt.Base.Map.{get, nat_key, get-insert_self, get-remove, same_key_iff}
use lwrt.Text.{equal}
use lwrt.Json.{Floats, object, no_pairs}
use lwrt.Json as Json
use lwrt.Ubus.{
  Probes, Object, Bus, V, Op, call, reply, op_of, has, str_field, or_else, any_equal, find_owner,
  builtin_call, send_to, ok_data,
}
use lwrt.Ubus.Broker.{
  u64_mod, Event, invoke, route, on_call, answered, on_reply, reqid_of, data_of, dispatch,
  handle_request, run,
}
use lwrt.Ubus.Steps.{IsSound, handle_request-IsSound, next_small}
use lwrt.Ubus.Waiting.{spares, Waits, run-Waits}

module _ (fl : Floats) (p : Probes) where
  find_owner-has :
      (path method : Bytes) (conns : List ℕ) (os : List Object) {owner : ℕ}
      → All (λ o. has o.owner conns ≡ true) os
      → find_owner path method os ≡ some owner
      → has owner conns ≡ true
  unfolding find_owner
  find_owner-has path method conns [] h e = cc
  find_owner-has path method conns (o ∷ os) h e =
      elim (Bool-cases (equal o.path path && any_equal method o.methods)) [
        | inl k ↦ subst (λ i. has i conns ≡ true) (same (rw k at e)) h.0
        | inr k ↦ find_owner-has path method conns os h.1 (rw k at e)
      ]
    where
      same : {i j : ℕ} → some i ≡ some j → i ≡ j
      same e = cc

  send_to-live :
      (b : Bus) (conn : ℕ) (v : V fl p)
      → has conn b.conns ≡ true
      → send_to fl p b conn v ≡ (conn, v) ∷ []
  unfolding send_to
  send_to-live b conn v live = rw live refl

  abbrev path_of : V fl p → Bytes
  path_of req = str_field (codes "path") req

  abbrev method_of : V fl p → Bytes
  method_of req = str_field (codes "method") req

  abbrev args_of : V fl p → V fl p
  args_of req = or_else (object no_pairs) (Json.get (codes "args") req)

  handle_request-dispatch :
      (b : Bus) (id : ℕ) (req : V fl p) {op : Op}
      → op_of (str_field (codes "op") req) ≡ op
      → handle_request fl p b id req ≡ dispatch fl p op b id req
  unfolding handle_request
  handle_request-dispatch b id req e = ap (λ op. dispatch fl p op b id req) e

  route-sends :
      (b : Bus) (caller owner : ℕ) (method : Bytes) (args : V fl p)
      → b.next_req + 1 < u64_mod
      → has owner b.conns ≡ true
      → let after = route fl p b caller method args (some owner) in
        (after.1 ≡ (owner, invoke fl p (b.next_req + 1) method args) ∷ [])
        × (get (b.next_req + 1) after.0.pending ≡ some caller)
        × (after.0.conns ≡ b.conns)
        × (after.0.next_conn ≡ b.next_conn)
        × (after.0.next_req ≡ b.next_req + 1)
  unfolding route send_to
  route-sends b caller owner method args small live =
      rw (next_small b.next_req small, live)
        (refl, get-insert_self (b.next_req + 1) caller b.pending, refl, refl, refl)

  -- The call goes to the owner of the object, and is in flight.
  handle_request-call :
      (b : Bus) (caller owner : ℕ) (req : V fl p)
      → b.next_req + 1 < u64_mod
      → IsSound b
      → op_of (str_field (codes "op") req) ≡ call
      → builtin_call fl p (path_of req) (method_of req) ≡ none
      → find_owner (path_of req) (method_of req) b.objects ≡ some owner
      → let after = handle_request fl p b caller req in
        (after.1 ≡ (owner, invoke fl p (b.next_req + 1) (method_of req) (args_of req)) ∷ [])
        × (get (b.next_req + 1) after.0.pending ≡ some caller)
        × (after.0.conns ≡ b.conns)
        × (after.0.next_conn ≡ b.next_conn)
        × (after.0.next_req ≡ b.next_req + 1)
  unfolding dispatch on_call
  handle_request-call b caller owner req small sound op far found =
      rw (handle_request-dispatch b caller req op, far, on_call, found)
        (route-sends b caller owner (method_of req) (args_of req) small
          (find_owner-has (path_of req) (method_of req) b.conns b.objects sound.owned found))

  -- A reply goes to the caller, and the call is no more in flight.
  handle_request-reply :
      (r caller : ℕ) (b : Bus) (provider : ℕ) (answer : V fl p)
      → op_of (str_field (codes "op") answer) ≡ reply
      → reqid_of fl p answer ≡ r
      → Waits fl p r caller b
      → let after = handle_request fl p b provider answer in
        (after.1 ≡ (caller, ok_data fl p (data_of fl p answer)) ∷ [])
        × (get r after.0.pending ≡ none)
  unfolding dispatch on_reply answered send_to
  handle_request-reply r caller b provider answer op id (asked, live) =
      rw
        (
          handle_request-dispatch b provider answer op,
          id,
          asked,
          live,
          get-remove r r b.pending,
          (same_key_iff r r).1 refl,
        )
        (refl, refl)

-- Of a sound broker and an open connection that calls a method of another connection's object: the owner
-- of the object gets the call, under a new id; and whatever happens then, short of an answer to that
-- call or the end of the caller, and before a counter passes 2^64, the first reply with the id goes to
-- the caller alone, with the data of the reply, and ends the call.
pub reply-call :
    (fl : Floats) (p : Probes) (b : Bus) (caller owner provider : ℕ) (req answer : V fl p)
    (es : List Event)
    → b.next_conn + length es < u64_mod
    → b.next_req + 1 + length es < u64_mod
    → IsSound b
    → has caller b.conns ≡ true
    → op_of (str_field (codes "op") req) ≡ call
    → builtin_call fl p (path_of fl p req) (method_of fl p req) ≡ none
    → find_owner (path_of fl p req) (method_of fl p req) b.objects ≡ some owner
    → All (λ e. spares fl p (b.next_req + 1) caller e ≡ true) es
    → op_of (str_field (codes "op") answer) ≡ reply
    → reqid_of fl p answer ≡ b.next_req + 1
    → let sent = handle_request fl p b caller req in
      let back = handle_request fl p (run fl p sent.0 es) provider answer in
      (sent.1 ≡ (owner, invoke fl p (b.next_req + 1) (method_of fl p req) (args_of fl p req)) ∷ [])
      × (back.1 ≡ (caller, ok_data fl p (data_of fl p answer)) ∷ [])
      × (get (b.next_req + 1) back.0.pending ≡ none)
reply-call fl p b caller owner provider req answer es few small sound live op far found spared op'
      id =
    let (out, asked, still, conns, reqs) =
      handle_request-call fl p b caller owner req (omega arith) sound op far found in
    let sent = (handle_request fl p b caller req).0 in
    let waits =
      run-Waits fl p (b.next_req + 1) caller sent es (omega arith) (omega arith)
        (handle_request-IsSound fl p b caller req (omega arith) live sound) spared
        (asked, subst (λ ids. has caller ids ≡ true) (sym still) live) in
    let (back, over) =
      handle_request-reply fl p (b.next_req + 1) caller (run fl p sent es) provider answer op' id
        waits in
    (out, back, over)
