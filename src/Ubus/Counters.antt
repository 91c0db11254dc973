-- ===== src/Ubus/Counters.antt =====
-- src/ubus.rs: how fast the broker's counters grow.
use lwrt.Base.{
  ℕ, ◌+◌, ◌≤◌, List, [], ◌∷◌, Option, none, some, inl, inr, arith, Option-cases, if_either,
}
use lwrt.Base.Bytes.{Bytes, codes}
use lwrt.Base.Map.{get, nat_key}
use lwrt.Text.{is_empty, trim}
use lwrt.Text.Utf8.{chars}
use lwrt.Json.{Floats}
use lwrt.Json.Parser.{Result, parse, ok, err}
use lwrt.Ubus.{
  Probes, Bus, V, Op, call, reply, add, op_of, has, str_field, find_owner, builtin_call,
}
use lwrt.Ubus.Broker.{
  Outcome, Event, opened, line, closed, route, on_call, answered, on_reply, reqid_of, data_of,
  register, on_add, on_send, on_listen, dispatch, parsed_line, handle_request, handle_line,
  open_conn, close_conn, step,
}

-- A step counts at most one connection and one request.
abbrev pub Grows : Bus → Bus → Type 0
Grows b b' = (b'.next_conn ≤ b.next_conn + 1) × (b'.next_req ≤ b.next_req + 1)

route-Grows :
    (fl : Floats) (p : Probes) (b : Bus) (id : ℕ) (method : Bytes) (args : V fl p) (o : Option ℕ)
    → Grows b (route fl p b id method args o).0
unfolding route
route-Grows fl p b id method args none = (omega arith, omega arith)
route-Grows fl p b id method args (some owner) = (omega arith, omega arith)

answered-Grows :
    (fl : Floats) (p : Probes) (b : Bus) (id : ℕ) (found : V fl p) (o : Option ℕ)
    → Grows b (answered fl p b id found o).0
unfolding answered
answered-Grows fl p b id found none = (omega arith, omega arith)
answered-Grows fl p b id found (some caller) = (omega arith, omega arith)

register-Grows :
    (fl : Floats) (p : Probes) (b : Bus) (id : ℕ) (path : Bytes) (methods : List Bytes)
    → Grows b (register fl p b id path methods).0
unfolding register
register-Grows fl p b id [] methods = (omega arith, omega arith)
register-Grows fl p b id (c ∷ path) methods = (omega arith, omega arith)

on_call-Grows :
    (fl : Floats) (p : Probes) (b : Bus) (id : ℕ) (req : V fl p) → Grows b (on_call fl p b id req).0
unfolding on_call
on_call-Grows fl p b id req =
    let path = str_field (codes "path") req in
    let method = str_field (codes "method") req in
    elim (Option-cases (builtin_call fl p path method)) [
      | inl e ↦ rw (e, on_call) (route-Grows fl p b id method _ (find_owner path method b.objects))
      | inr (found, e) ↦ rw (e, on_call) (omega arith, omega arith)
    ]

dispatch-Grows :
    (fl : Floats) (p : Probes) (op : Op) (b : Bus) (id : ℕ) (req : V fl p)
    → Grows b (dispatch fl p op b id req).0
unfolding dispatch on_reply on_add on_send on_listen
dispatch-Grows fl p call b id req = on_call-Grows fl p b id req
dispatch-Grows fl p reply b id req =
    answered-Grows fl p b (reqid_of fl p req) (data_of fl p req) (get (reqid_of fl p req) b.pending)
dispatch-Grows fl p add b id req = register-Grows fl p b id _ _
dispatch-Grows fl p _ b id req = (omega arith, omega arith)

parsed_line-Grows :
    (fl : Floats) (p : Probes) (b : Bus) (id : ℕ) (bytes : Bytes) (r : Result (V fl p))
    → Grows b (parsed_line fl p b id bytes r).0
unfolding handle_request
parsed_line-Grows fl p b id bytes (ok req) =
    dispatch-Grows fl p (op_of (str_field (codes "op") req)) b id req
parsed_line-Grows fl p b id bytes (err e) = (omega arith, omega arith)

pub step-Grows : (fl : Floats) (p : Probes) (b : Bus) (e : Event) → Grows b (step fl p b e).0
unfolding step handle_line open_conn close_conn
step-Grows fl p b opened = (omega arith, omega arith)
step-Grows fl p b (line id bytes) =
    if_either (λ (r : Outcome fl p). Grows b r.0) (has id b.conns)
      (if_either (λ (r : Outcome fl p). Grows b r.0) (is_empty (trim (chars bytes)))
        (omega arith, omega arith) (parsed_line-Grows fl p b id bytes (parse fl bytes)))
      (omega arith, omega arith)
step-Grows fl p b (closed id) =
    if_either (λ (r : Outcome fl p). Grows b r.0) (has id b.conns) (omega arith, omega arith)
      (omega arith, omega arith)
