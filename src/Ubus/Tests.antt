-- ===== src/Ubus/Tests.antt =====
-- src/ubus.rs: the theorems at a provider and a caller.
use lwrt.Base.{ℕ, List, [], ◌∷◌, none, ◌≡◌, refl, ltb→lt}
use lwrt.Base.Bytes.{codes}
use lwrt.Base.Map.{get, nat_key}
use lwrt.Text.{equal, trim}
use lwrt.Text.Numbers.{parse_unsigned}
use lwrt.Text.Utf8.{utf8_from, chars}
use lwrt.Json as Json
use lwrt.Json.{as_array, as_str, as_u64, null, num, str, object, no_pairs, obj}
use lwrt.Json.Samples.{naturals}
use lwrt.Json.Parser.{parse}
use lwrt.Ubus.{Probes, Bus, V, fresh, ok_data, op_of, has, builtin_call, find_owner}
use lwrt.Ubus.Broker.{u64_mod, Event, opened, line, closed, invoke, handle_request, run}
use lwrt.Ubus.Steps.{IsSound}
use lwrt.Ubus.Invariant.{run-IsSound}
use lwrt.Ubus.Waiting.{spares}
use lwrt.Ubus.Routing.{reply-call}

abbrev board : Probes
board = record {
  kernel_release = codes "5.15";
  hostname = codes "lwrt";
  version = codes "0.1.0";
  uptime = 17;
  now_secs = 1700000000;
  proc_meminfo = codes "MemTotal: 60 kB\nMemFree: 12 kB\n";
  parse_message = λ line. codes "error";
}

abbrev events : List Event
events =
    opened ∷ opened ∷ line 2 (codes "{\"op\":\"add\",\"path\":\"net\",\"methods\":[\"up\"]}") ∷ []

run-IsSound_example : IsSound (run naturals board fresh events)
run-IsSound_example = run-IsSound naturals board events (ltb→lt 3 u64_mod refl)

abbrev provided : Bus
provided = run naturals board fresh events

abbrev request : V naturals board
request = obj {F = ℕ} (
    (codes "op", str (codes "call"))
    ∷ (codes "path", str (codes "net"))
    ∷ (codes "method", str (codes "up"))
    ∷ [])

abbrev answer : V naturals board
answer =
    obj {F = ℕ}
      ((codes "op", str (codes "reply")) ∷ (codes "id", num 1) ∷ (codes "data", num 7) ∷ [])

abbrev between : List Event
between = line 1 (codes "{\"op\":\"listen\"}") ∷ opened ∷ closed 3 ∷ []

reply-call_example :
    let sent = handle_request naturals board provided 1 request in
    let back = handle_request naturals board (run naturals board sent.0 between) 2 answer in
    (sent.1 ≡ (2, invoke naturals board 1 (codes "up") (object no_pairs)) ∷ [])
    × (back.1 ≡ (1, ok_data naturals board (num 7)) ∷ [])
    × (get 1 back.0.pending ≡ none)
unfolding run Json.get trim chars parse utf8_from equal as_str as_u64 spares op_of has builtin_call
    find_owner parse_unsigned as_array
reply-call_example =
    reply-call naturals board provided 1 2 2 request answer between (ltb→lt 5 u64_mod refl)
      (ltb→lt 4 u64_mod refl) run-IsSound_example refl refl refl refl (refl, (refl, (refl, tt)))
      refl refl
