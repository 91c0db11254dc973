-- ===== src/Sha256/Padding.antt =====
-- src/sha256.rs: `finish` and `digest` against the padding of FIPS 180-4.
use lwrt.Base.{
  ℕ, zero, suc, ◌+◌, ◌*◌, ◌-◌, ◌%◌, ◌≤◌, ◌<◌, List, [], ◌∷◌, ◌++◌, length, replicate, ◌≡◌, sym, ap,
  ◌∙◌, arith, length-append, append_assoc, append-nil, ==_true, ==_false,
}
use lwrt.Base.Bytes.{Bytes}
use lwrt.Sha256.Compress.{h0}
use lwrt.Sha256.Blocks.{blocks}
use lwrt.Sha256.Streaming.{
  Holds, new-Holds, update-Holds, update_all, concat, update_all-Holds, Holds-fill, Holds-len,
  Holds-hash,
}
use lwrt.Sha256.{Sha256, new, update, u64_mod, pad_zeros, padded, finish, digest, be64, words_bytes}

-- The padding of the standard: one bit, zeros up to 8 bytes before the end of a block, the length in bits.
abbrev pub zeros : ℕ → ℕ
zeros n = (119 - n % 64) % 64

unfoldable pub padded_message : Bytes → Bytes
padded_message m = m ++ (0x80 ∷ (replicate (zeros (length m)) 0 ++ be64 (length m * 8 % u64_mod)))

-- The digest of a message that lies there in one piece.
unfoldable pub sha256 : Bytes → Bytes
sha256 m = words_bytes (blocks h0 (padded_message m)).0

-- The padding loop stops behind exactly the zeros that are missing.
pad_zeros-Holds :
    (k fuel : ℕ) (m : Bytes) (s : Sha256)
    → Holds m s
    → k ≤ fuel
    → k < 64
    → (length m + k) % 64 ≡ 56
    → Holds (m ++ replicate k 0) (pad_zeros fuel s)
unfolding pad_zeros
pad_zeros-Holds zero zero m s held p q r = rw (append-nil m) held
pad_zeros-Holds zero (suc fuel) m s held p q r =
    rw (append-nil m, ==_true s.fill 56 (omega (arith, Holds-fill m s held))) held
pad_zeros-Holds (suc k) zero m s held p q r = absurd (omega arith)
pad_zeros-Holds (suc k) (suc fuel) m s held p q r =
    rw
      (
        ==_false s.fill 56 (λ e. absurd (omega (arith, e, Holds-fill m s held))),
        ← append_assoc m (0 ∷ []) (replicate k 0),
      )
      (pad_zeros-Holds k fuel (m ++ (0 ∷ [])) (update s (0 ∷ [])) (update-Holds m (0 ∷ []) s held)
        (omega arith) (omega arith) (omega (arith, length-append m (0 ∷ []))))

padded-Holds : (m : Bytes) (s : Sha256) → Holds m s → Holds (padded_message m) (padded s)
unfolding padded padded_message
padded-Holds m s held =
    let one : Bytes = 0x80 ∷ [] in
    let n = zeros (length m) in
    let filled =
      pad_zeros-Holds n 64 (m ++ one) (update s one) (update-Holds m one s held) (omega arith)
        (omega arith) (omega (arith, length-append m one)) in
    let bits : s.len * 8 % u64_mod ≡ length m * 8 % u64_mod = omega (arith, Holds-len m s held) in
    rw
      (
        ← append_assoc m one (replicate n 0 ++ be64 (length m * 8 % u64_mod)),
        ← append_assoc (m ++ one) (replicate n 0) (be64 (length m * 8 % u64_mod)),
        ← bits,
      )
      (update-Holds ((m ++ one) ++ replicate n 0) (be64 (s.len * 8 % u64_mod))
        (pad_zeros 64 (update s one)) filled)

-- `finish` of a state that has taken `m` is the digest of `m`.
pub finish_lem : (m : Bytes) (s : Sha256) → Holds m s → finish s ≡ sha256 m
unfolding finish sha256
finish_lem m s held =
    ap words_bytes (Holds-hash (padded_message m) (padded s) (padded-Holds m s held))

-- However a message is cut into chunks, `finish` after feeding them one by one to a new state is the
-- digest of the message padded as the standard says and taken block by block.
pub finish-update_all : (cs : List Bytes) → finish (update_all new cs) ≡ sha256 (concat cs)
finish-update_all cs =
    finish_lem (concat cs) (update_all new cs) (update_all-Holds cs [] new new-Holds)

-- `digest` of a message is what streaming the same bytes in any chunks gives.
pub digest-concat : (cs : List Bytes) → digest (concat cs) ≡ finish (update_all new cs)
unfolding digest
digest-concat cs =
    finish_lem (concat cs) (update new (concat cs)) (update-Holds [] (concat cs) new new-Holds)
    ∙ sym (finish-update_all cs)
