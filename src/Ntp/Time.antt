-- ===== src/Ntp/Time.antt =====
-- src/ntp.rs: the time that a reply gives, against an encoder of timestamps.
use lwrt.Base.{
  get_or-append, ℕ, ◌+◌, ◌*◌, ◌/◌, ◌%◌, ◌^◌, ◌<◌, ◌++◌, some, length, get_or, ◌≡◌, sym, ap, ◌∙◌,
  arith, le→not_ltb, ==_false, length-append,
}
use lwrt.Base.Bytes.{Bytes, be32, of_be32}
use lwrt.Ntp.{ntp_unix_offset, time_of}

-- RFC 4330: the seconds since 1900 and their fraction stand behind 40 bytes.
abbrev pub packet : Bytes → ℕ → ℕ → Bytes
packet front secs frac = front ++ (be32 secs ++ be32 frac)

of_be32-be32 :
    (v : ℕ)
    → v < 2 ^ 32
    → of_be32 (v / 16777216 % 256) (v / 65536 % 256) (v / 256 % 256) (v % 256) ≡ v
of_be32-be32 v h = omega arith

at : (front bs : Bytes) (i k : ℕ) → length front + i ≡ k → get_or (front ++ bs) k 0 ≡ get_or bs i 0
at front bs i k e = ap (λ j. get_or (front ++ bs) j 0) (sym e) ∙ get_or-append front bs i 0

-- Of a packet with the transmit timestamp of a time from 1970 on, 40 bytes before it, the reply's time
-- is that time, its fraction in nanoseconds, of which there are fewer than 10^9.
time_of-packet :
    (front : Bytes) (unix frac : ℕ)
    → length front ≡ 40
    → unix + ntp_unix_offset < 2 ^ 32
    → frac < 2 ^ 32
    → (time_of (packet front (unix + ntp_unix_offset) frac)
        ≡ some (unix, frac * 1000000000 / 2 ^ 32))
      × (frac * 1000000000 / 2 ^ 32 < 1000000000)
unfolding time_of
time_of-packet front unix frac l u f =
    let secs = unix + ntp_unix_offset in
    let bs = be32 secs ++ be32 frac in
    (
      rw
          (
            at front bs 0 40 (omega (arith, l)),
            at front bs 1 41 (omega (arith, l)),
            at front bs 2 42 (omega (arith, l)),
            at front bs 3 43 (omega (arith, l)),
            at front bs 4 44 (omega (arith, l)),
            at front bs 5 45 (omega (arith, l)),
            at front bs 6 46 (omega (arith, l)),
            at front bs 7 47 (omega (arith, l)),
            of_be32-be32 secs u,
            of_be32-be32 frac f,
            le→not_ltb (length (front ++ bs)) 48 (omega (arith, l, length-append front bs)),
            ==_false secs 0 (λ e. absurd (omega arith)),
            le→not_ltb secs ntp_unix_offset (omega arith),
          )
          (ap (λ s. some (s, frac * 1000000000 / 2 ^ 32)) (omega arith)),
      omega arith,
    )
