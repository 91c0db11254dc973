-- ===== src/Log/Tests.antt =====
-- src/log.rs: two messages, and the bound after them.
use lwrt.Base.{true, List, [], ◌∷◌, none, ◌≡◌, refl, arith}
use lwrt.Base.Bytes.{codes}
use lwrt.Text.{split_once, trim_end_by}
use lwrt.Text.Printing.{decimal}
use lwrt.Log.{Store, Calls, Event, datagram, kmsg, run, read}
use lwrt.Log.Bounds.{IsBounded, run-IsBounded}

abbrev works : Calls
works = record { renames = true; writes = true }

abbrev messages : List Event
messages = datagram 7 works (codes "hello\n") ∷ kmsg 8 works (codes "6,1,2,-;usb up\n") ∷ []

abbrev start : Store
start = record { file = none; old = none }

written : read (run (λ bs. bs) messages start) ≡ codes "[7] hello\n[8] kernel: usb up\n"
unfolding run read decimal split_once trim_end_by
written = refl

run-IsBounded_example : IsBounded (run (λ bs. bs) messages start)
run-IsBounded_example =
    run-IsBounded (λ bs. bs) messages start (λ bytes. omega arith) (refl, (refl, tt))
      (omega arith, omega arith)
