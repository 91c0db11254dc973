-- ===== src/Ubus/Waiting.antt =====
-- src/ubus.rs: a call stays in flight until it is answered or its caller is gone.
use lwrt.Base.{
  ℕ, ◌+◌, ◌≤◌, ◌<◌, Bool, true, false, not, List, [], ◌∷◌, Option, none, some, length, ◌==◌, ◌≡◌,
  refl, inl, inr, All, arith, Option-cases, if_either,
}
use lwrt.Base.Bytes.{Bytes, codes}
use lwrt.Base.Map.{get, nat_key, get-insert, get-remove, same_key, same_key_iff}
use lwrt.Text.{is_empty, trim}
use lwrt.Text.Utf8.{chars}
use lwrt.Json.{Floats}
use lwrt.Json.Parser.{Result, parse, ok, err}
use lwrt.Ubus.{
  Probes, Bus, V, Op, call, reply, add, op_of, has, str_field, find_owner, builtin_call,
}
use lwrt.Ubus.Broker.{
  Outcome, u64_mod, Event, opened, line, closed, route, on_call, answered, on_reply, reqid_of,
  data_of, register, on_add, on_send, on_listen, dispatch, handle_request, parsed_line, handle_line,
  open_conn, close_conn, step, run,
}
use lwrt.Text.Filtering.{not-true}
use lwrt.Ubus.Sets.{has-put, has-discard}
use lwrt.Ubus.Steps.{IsSound, step-IsSound, next, next_small}
use lwrt.Ubus.Counters.{step-Grows}

module _ (fl : Floats) (p : Probes) where
  -- Whether a request is no reply to the call `r`.
  abbrev pub other_request : ℕ → Op → V fl p → Bool
  other_request r reply req = not (reqid_of fl p req == r)
  other_request r _ req = true

  abbrev pub other_line : ℕ → Result (V fl p) → Bool
  other_line r (ok req) = other_request r (op_of (str_field (codes "op") req)) req
  other_line r (err e) = true

  -- An event that neither answers the call `r` nor closes its caller.
  unfoldable pub spares : ℕ → ℕ → Event → Bool
  spares r caller opened = true
  spares r caller (line id bytes) = other_line r (parse fl bytes)
  spares r caller (closed id) = not (id == caller)

  -- The call `r` is in flight for a connection that is open.
  abbrev pub Waits : ℕ → ℕ → Bus → Type 0
  Waits r caller b = (get r b.pending ≡ some caller) × (has caller b.conns ≡ true)

  route-Waits :
      (r caller : ℕ) (b : Bus) (id : ℕ) (method : Bytes) (args : V fl p) (o : Option ℕ)
      → r ≤ b.next_req
      → b.next_req + 1 < u64_mod
      → Waits r caller b
      → Waits r caller (route fl p b id method args o).0
  unfolding route
  route-Waits r caller b id method args none old small h = h
  route-Waits r caller b id method args (some owner) old small (asked, live) =
      (rw (get-insert (next b.next_req) r id b.pending, other) asked, live)
    where
      other : same_key (next b.next_req) r ≡ false
      other = ground (arith, same_key_iff (next b.next_req) r, next_small b.next_req small)

  answered-Waits :
      (r caller : ℕ) (b : Bus) (reqid : ℕ) (found : V fl p) (o : Option ℕ)
      → not (reqid == r) ≡ true
      → Waits r caller b
      → Waits r caller (answered fl p b reqid found o).0
  unfolding answered
  answered-Waits r caller b reqid found none other h = h
  answered-Waits r caller b reqid found (some c) other (asked, live) =
      (rw (get-remove reqid r b.pending, apart) asked, live)
    where
      apart : same_key reqid r ≡ false
      apart = ground (arith, same_key_iff reqid r)

  register-Waits :
      (r caller : ℕ) (b : Bus) (id : ℕ) (path : Bytes) (methods : List Bytes)
      → Waits r caller b
      → Waits r caller (register fl p b id path methods).0
  unfolding register
  register-Waits r caller b id [] methods h = h
  register-Waits r caller b id (c ∷ path) methods h = h

  on_call-Waits :
      (r caller : ℕ) (b : Bus) (id : ℕ) (req : V fl p)
      → r ≤ b.next_req
      → b.next_req + 1 < u64_mod
      → Waits r caller b
      → Waits r caller (on_call fl p b id req).0
  unfolding on_call
  on_call-Waits r caller b id req old small h =
      let path = str_field (codes "path") req in
      let method = str_field (codes "method") req in
      elim (Option-cases (builtin_call fl p path method)) [
        | inl e ↦
            rw (e, on_call)
              (route-Waits r caller b id method _ (find_owner path method b.objects) old small h)
        | inr (found, e) ↦ rw (e, on_call) h
      ]

  dispatch-Waits :
      (r caller : ℕ) (op : Op) (b : Bus) (id : ℕ) (req : V fl p)
      → r ≤ b.next_req
      → b.next_req + 1 < u64_mod
      → other_request r op req ≡ true
      → Waits r caller b
      → Waits r caller (dispatch fl p op b id req).0
  unfolding dispatch on_reply on_add on_send on_listen
  dispatch-Waits r caller call b id req old small other h =
      on_call-Waits r caller b id req old small h
  dispatch-Waits r caller reply b id req old small other h =
      answered-Waits r caller b (reqid_of fl p req) (data_of fl p req)
        (get (reqid_of fl p req) b.pending) other h
  dispatch-Waits r caller add b id req old small other h = register-Waits r caller b id _ _ h
  dispatch-Waits r caller _ b id req old small other h = h

  parsed_line-Waits :
      (r caller : ℕ) (b : Bus) (id : ℕ) (bytes : Bytes) (parsed : Result (V fl p))
      → r ≤ b.next_req
      → b.next_req + 1 < u64_mod
      → other_line r parsed ≡ true
      → Waits r caller b
      → Waits r caller (parsed_line fl p b id bytes parsed).0
  unfolding handle_request
  parsed_line-Waits r caller b id bytes (ok req) old small other h =
      dispatch-Waits r caller (op_of (str_field (codes "op") req)) b id req old small other h
  parsed_line-Waits r caller b id bytes (err e) old small other h = h

  step-Waits :
      (r caller : ℕ) (b : Bus) (e : Event)
      → r ≤ b.next_req
      → b.next_req + 1 < u64_mod
      → spares r caller e ≡ true
      → Waits r caller b
      → Waits r caller (step fl p b e).0
  unfolding step handle_line spares open_conn close_conn
  step-Waits r caller b opened old small other (asked, live) = (
    asked,
    rw (has-put (next b.next_conn) caller b.conns, live)
        (if_either (λ x. x ≡ true) (next b.next_conn == caller) refl refl),
  )
  step-Waits r caller b (line id bytes) old small other h =
      if_either (λ (o : Outcome fl p). Waits r caller o.0) (has id b.conns)
        (if_either (λ (o : Outcome fl p). Waits r caller o.0) (is_empty (trim (chars bytes))) h
          (parsed_line-Waits r caller b id bytes (parse fl bytes) old small other h))
        h
  step-Waits r caller b (closed id) old small other (asked, live) =
      if_either (λ (o : Outcome fl p). Waits r caller o.0) (has id b.conns)
        (asked, rw (has-discard id caller b.conns, not-true (id == caller) other) live)
        (asked, live)

  pub run-Waits :
      (r caller : ℕ) (b : Bus) (es : List Event)
      → b.next_conn + length es < u64_mod
      → b.next_req + length es < u64_mod
      → IsSound b
      → All (λ e. spares r caller e ≡ true) es
      → Waits r caller b
      → Waits r caller (run fl p b es)
  unfolding run
  run-Waits r caller b [] few small sound spared h = h
  run-Waits r caller b (e ∷ es) few small sound (spared, rest) h =
      run-Waits r caller (step fl p b e).0 es (omega (arith, step-Grows fl p b e))
        (omega (arith, step-Grows fl p b e))
        (step-IsSound fl p b e (omega arith) (omega arith) sound) rest
        (step-Waits r caller b e (sound.asked r caller h.0) (omega arith) spared h)
