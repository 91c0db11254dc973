-- ===== src/Ubus/Invariant.antt =====
-- src/ubus.rs: what holds of the broker whatever is connected, sent and closed.
use lwrt.Base.{◌+◌, ◌<◌, List, [], ◌∷◌, length, arith}
use lwrt.Base.Map.{get, nat_key}
use lwrt.Json.{Floats}
use lwrt.Ubus.{Probes, Bus, has, fresh}
use lwrt.Ubus.Broker.{u64_mod, Event, step, run}
use lwrt.Ubus.Steps.{IsSound, step-IsSound}
use lwrt.Ubus.Counters.{step-Grows}

run-IsSound_from :
    (fl : Floats) (p : Probes) (b : Bus) (es : List Event)
    → b.next_conn + length es < u64_mod
    → b.next_req + length es < u64_mod
    → IsSound b
    → IsSound (run fl p b es)
unfolding run
run-IsSound_from fl p b [] few small h = h
run-IsSound_from fl p b (e ∷ es) few small h =
    run-IsSound_from fl p (step fl p b e).0 es (omega (arith, step-Grows fl p b e))
      (omega (arith, step-Grows fl p b e)) (step-IsSound fl p b e (omega arith) (omega arith) h)

-- After any events from the start, fewer than 2^64: no two objects have the same path, every owner of an
-- object and every listener is an open connection, and no id of a connection or of a call in flight is
-- above its counter.
pub run-IsSound :
    (fl : Floats) (p : Probes) (es : List Event) → length es < u64_mod → IsSound (run fl p fresh es)
unfolding has get
run-IsSound fl p es small = run-IsSound_from fl p fresh es (omega arith) (omega arith) record {
  distinct = tt;
  owned = tt;
  listening = λ i e. cc;
  numbered = λ i e. cc;
  asked = λ r c e. cc;
}
