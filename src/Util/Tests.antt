-- ===== src/Util/Tests.antt =====
-- src/util.rs: the test of the source, and the theorem at five bytes.
use lwrt.Base.{[], ◌∷◌, some, ◌≡◌, refl, arith}
use lwrt.Base.Bytes.{codes}
use lwrt.Text.{trim, trim_start_by, trim_end_by, is_whitespace}
use lwrt.Util.{val, is_skipped, decode_from, b64_decode}
use lwrt.Util.Base64.{encode, b64_decode-encode}

hello : b64_decode (codes "aGVsbG8=") ≡ some (codes "hello")
unfolding b64_decode decode_from is_skipped val trim trim_start_by trim_end_by is_whitespace
hello = refl

b64_decode-encode_example :
    b64_decode (encode (0 ∷ 255 ∷ 7 ∷ 128 ∷ 1 ∷ [])) ≡ some (0 ∷ 255 ∷ 7 ∷ 128 ∷ 1 ∷ [])
b64_decode-encode_example = b64_decode-encode (0 ∷ 255 ∷ 7 ∷ 128 ∷ 1 ∷ []) (omega arith)
