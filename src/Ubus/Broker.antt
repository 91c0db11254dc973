-- ===== src/Ubus/Broker.antt =====
-- src/ubus.rs: `handle_request` and the life of a connection in `handle_conn`.
use lwrt.Base.{ℕ, ◌+◌, ◌%◌, ◌^◌, not, List, [], ◌∷◌, ◌++◌, Option, none, some, ◌==◌, if◌then◌else◌}
use lwrt.Base.Options.{◌>>=◌}
use lwrt.Base.Bytes.{Bytes, codes}
use lwrt.Base.Map.{get, insert, remove, nat_key}
use lwrt.Text.{equal, is_empty, trim, filter_by}
use lwrt.Text.Utf8.{chars}
use lwrt.Json.{Floats, Value, null, num, str, object, no_pairs, obj, as_str, as_u64, as_array}
use lwrt.Json as Json
use lwrt.Json.Parser.{parse, Result, ok, err}
use lwrt.Ubus.{
  Probes, Bus, Frames, V, Op, list, call, reply, add, send, listen, unknown, op_of, has, put,
  discard, str_field, or_else, methods_of, find_owner, send_to, ok_data, status_ok, error,
  builtin_call, list_objects,
}

abbrev pub u64_mod : ℕ
u64_mod = 2 ^ 64

unfoldable pub open_conn : Bus → Bus
unfolding put
open_conn b =
    let id = (b.next_conn + 1) % u64_mod in record b { next_conn = id; conns = put id b.conns }

unfoldable pub close_conn : ℕ → Bus → Bus
unfolding discard filter_by
close_conn id b = record b {
  conns = discard id b.conns;
  listeners = discard id b.listeners;
  objects = filter_by (λ o. not (o.owner == id)) b.objects;
}

-- What a thread of the daemon does between two locks.
pub data Event : Type 0 where
  opened : Event
  line : ℕ → Bytes → Event
  closed : ℕ → Event

module _ (fl : Floats) (p : Probes) where
  -- The broker after a step, and the frames that it sends.
  abbrev pub Outcome : Type 0
  Outcome = Bus × Frames fl p

  abbrev pub invoke : ℕ → Bytes → V fl p → V fl p
  invoke reqid method args = obj (
      (codes "invoke", num (fl.of_u64 reqid))
      ∷ (codes "method", str method)
      ∷ (codes "args", args)
      ∷ [])

  unfoldable pub route : Bus → ℕ → Bytes → V fl p → Option ℕ → Outcome
  unfolding send_to
  route b id method args none =
      (b, send_to fl p b id (error fl p 2 (codes "object/method not found")))
  route b id method args (some owner) =
      let reqid = (b.next_req + 1) % u64_mod in
      let b' = record b { next_req = reqid; pending = insert reqid id b.pending } in
      (b', send_to fl p b' owner (invoke reqid method args))

  unfoldable pub on_call : Bus → ℕ → V fl p → Outcome
  unfolding route builtin_call find_owner send_to
  on_call b id req =
      let path = str_field (codes "path") req in
      let method = str_field (codes "method") req in
      let args = or_else (object no_pairs) (Json.get (codes "args") req) in
      elim (builtin_call fl p path method) [
        | some found ↦ (b, send_to fl p b id (ok_data fl p found))
        | none ↦ route b id method args (find_owner path method b.objects)
      ]

  unfoldable pub answered : Bus → ℕ → V fl p → Option ℕ → Outcome
  unfolding send_to
  answered b reqid found none = (b, [])
  answered b reqid found (some caller) =
      let b' = record b { pending = remove reqid b.pending } in
      (b', send_to fl p b' caller (ok_data fl p found))

  abbrev pub reqid_of : V fl p → ℕ
  reqid_of req = or_else 0 (Json.get (codes "id") req >>= as_u64 fl)

  abbrev pub data_of : V fl p → V fl p
  data_of req = or_else null (Json.get (codes "data") req)

  unfoldable pub on_reply : Bus → V fl p → Outcome
  unfolding answered
  on_reply b req = answered b (reqid_of req) (data_of req) (get (reqid_of req) b.pending)

  unfoldable pub register : Bus → ℕ → Bytes → List Bytes → Outcome
  unfolding filter_by send_to
  register b id [] methods = (b, send_to fl p b id (error fl p 1 (codes "add: empty path")))
  register b id (c ∷ path) methods =
      let others = filter_by (λ o. not (equal o.path (c ∷ path))) b.objects in
      let b' = record b {
        objects = others ++ record { path = c ∷ path; methods = methods; owner = id } ∷ [];
      } in
      (b', send_to fl p b' id (status_ok fl p))

  unfoldable pub on_add : Bus → ℕ → V fl p → Outcome
  unfolding register
  on_add b id req =
      register b id (str_field (codes "path") req)
        (methods_of (Json.get (codes "methods") req >>= as_array))

  -- The order of a hash set is the order of `listeners`.
  unfoldable pub send_all : Bus → List ℕ → V fl p → Frames fl p
  unfolding send_to
  send_all b [] msg = []
  send_all b (t ∷ targets) msg = send_to fl p b t msg ++ send_all b targets msg

  unfoldable pub on_send : Bus → ℕ → V fl p → Outcome
  unfolding send_all send_to
  on_send b id req =
      let msg =
        obj (
          (codes "event", str (str_field (codes "event") req))
          ∷ (codes "data", data_of req)
          ∷ []) in
      (b, send_all b b.listeners msg ++ send_to fl p b id (status_ok fl p))

  unfoldable pub on_listen : Bus → ℕ → Outcome
  unfolding put send_to
  on_listen b id =
      let b' = record b { listeners = put id b.listeners } in
      (b', send_to fl p b' id (status_ok fl p))

  unfoldable pub dispatch : Op → Bus → ℕ → V fl p → Outcome
  unfolding on_call on_reply on_add on_send on_listen send_to list_objects
  dispatch list b id req = (b, send_to fl p b id (list_objects fl p b))
  dispatch call b id req = on_call b id req
  dispatch reply b id req = on_reply b req
  dispatch add b id req = on_add b id req
  dispatch send b id req = on_send b id req
  dispatch listen b id req = on_listen b id
  dispatch unknown b id req = (b, send_to fl p b id (error fl p 1 (codes "unknown op")))

  unfoldable pub handle_request : Bus → ℕ → V fl p → Outcome
  unfolding dispatch op_of
  handle_request b id req = dispatch (op_of (str_field (codes "op") req)) b id req

  abbrev pub parsed_line : Bus → ℕ → Bytes → Result (V fl p) → Outcome
  unfolding handle_request send_to
  parsed_line b id bytes (ok req) = handle_request b id req
  parsed_line b id bytes (err e) =
      (b, send_to fl p b id (error fl p 1 (codes "bad json: " ++ p.parse_message bytes)))

  -- The body of the loop over lines.
  unfoldable pub handle_line : Bus → ℕ → Bytes → Outcome
  unfolding handle_request send_to
  handle_line b id bytes =
      if is_empty (trim (chars bytes)) then (b, []) else parsed_line b id bytes (parse fl bytes)

  -- Only the thread of an open connection reads its lines and its end.
  unfoldable pub step : Bus → Event → Outcome
  unfolding open_conn close_conn handle_line has
  step b opened = (open_conn b, [])
  step b (line id bytes) = if has id b.conns then handle_line b id bytes else (b, [])
  step b (closed id) = if has id b.conns then (close_conn id b, []) else (b, [])

  unfoldable pub run : Bus → List Event → Bus
  unfolding step
  run b [] = b
  run b (e ∷ es) = run (step b e).0 es
