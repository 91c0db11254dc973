-- ===== src/Ipkg/Tests.antt =====
-- src/ipkg.rs: the cases of its unit tests, and the theorems at a small archive.
use lwrt.Base.{
  ℕ, ◌^◌, true, [], ◌∷◌, ◌++◌, Option, none, some, replicate, ◌≡◌, ◌≢◌, refl, sym, ap, subst, ◌∙◌,
  All, if◌then◌else◌,
}
use lwrt.Base.Bytes.{Bytes, codes, copy_at}
use lwrt.Text.{
  Text, equal, lower, trim, lines, split_once, split_by, strip_cr, trim_start_by, filter_by,
}
use lwrt.Text.Numbers.{parse_unsigned}
use lwrt.Sha256.Compress.{compress}
use lwrt.Sha256.{digest, finish, padded, pad_zeros, update, whole_blocks, new}
use lwrt.Sha256.Hex.{hex}
use lwrt.Ipkg.{find_entry, sanitize}
use lwrt.Ipkg.Paths.{IsSafe}
use lwrt.Ipkg.Archive.{Disk, extract_ustar, install, install_blob, size_matches, digest_matches}
use lwrt.Ipkg.Safety.{IsInside, KeepsSafe, Verified, extract_ustar-IsInside, install-Verified}

abbrev usize : ℕ
usize = 2 ^ 64

abbrev index : Text
index =
    codes
      "Package: hello\nVersion: 1.0\nFilename: hello.ipk\nSize: 2048\nSHA256sum: abc123\n\nPackage: world\nSize: 3\nSHA256sum: BA7816BF8F01CFEA414140DE5DAE2223B00361A396177A9CB410FF61F20015AD\n"

found_world :
    find_entry usize index (codes "world")
    ≡ some record {
      filename = codes "world.ipk";
      size = some 3;
      sha256 = some (codes "BA7816BF8F01CFEA414140DE5DAE2223B00361A396177A9CB410FF61F20015AD");
    }
unfolding find_entry lines trim split_once equal parse_unsigned split_by strip_cr
found_world = refl

refuses_escapes : sanitize (codes "../../etc/shadow") ≡ codes "/etc/shadow"
unfolding sanitize equal split_by trim_start_by filter_by
refuses_escapes = refl

abbrev disk : Disk
disk = record {
  parent = λ path. some (codes "/");
  opens = λ path. true;
  stores = λ path file. true;
}

keeps : KeepsSafe disk.parent
unfolding equal split_by
keeps path dir safe e = subst IsSafe (same e) (refl, (refl, (refl, tt)))
  where
    same : {a b : Text} → some a ≡ some b → a ≡ b
    same e = cc

abbrev archive : Bytes
archive =
    codes "../b"
    ++ replicate 120 0
    ++ codes "00000000002"
    ++ replicate 21 0
    ++ b'0' ∷ replicate 355 0
    ++ codes "hi"
    ++ replicate 510 0

extract_ustar-IsInside_example : All IsInside (extract_ustar usize (λ bs. bs) disk archive).1
extract_ustar-IsInside_example = extract_ustar-IsInside usize (λ bs. bs) disk archive keeps

abbrev server : Text → Option Bytes
server url = if equal url (codes "http://r/world.ipk") then some (codes "abc") else none

succeeds :
    (install usize (λ bs. bs) disk server (codes "http://r") (some index) (codes "world")).0 ≡ 0
unfolding install install_blob extract_ustar find_entry lines trim split_once equal parse_unsigned
    split_by strip_cr digest size_matches digest_matches finish padded pad_zeros update whole_blocks
    new compress copy_at hex lower
succeeds = refl

installs :
    install usize (λ bs. bs) disk server (codes "http://r") (some index) (codes "world") ≢ (1, [])
installs e = differ (sym succeeds ∙ ap (λ r. r.0) e)
  where
    differ : ◌≢◌ {A = ℕ} 0 1
    differ e = cc

install-Verified_example : Verified usize server (codes "http://r") index (codes "world")
install-Verified_example =
    install-Verified usize (λ bs. bs) disk server (codes "http://r") index (codes "world") installs
