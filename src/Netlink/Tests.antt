-- ===== src/Netlink/Tests.antt =====
-- src/nl.rs: the theorems at two attributes.
use lwrt.Base.{ℕ, List, [], ◌∷◌, ◌≡◌, some, arith}
use lwrt.Base.Bytes.{Bytes, le32}
use lwrt.Netlink.Attributes.{write_attrs, for_each_attr-write_attrs, for_each_attr-ends}
use lwrt.Netlink.{new, walk_attrs, for_each_attr}

abbrev two_attrs : List (ℕ × Bytes)
two_attrs = (1, 0xaa ∷ []) ∷ (2, le32 0xdeadbeef) ∷ []

for_each_attr-write_attrs_example : for_each_attr (write_attrs two_attrs new) ≡ two_attrs
for_each_attr-write_attrs_example = for_each_attr-write_attrs two_attrs (omega arith)

abbrev one_attr : Bytes
one_attr = 5 ∷ 0 ∷ 1 ∷ 0 ∷ 0xaa ∷ 0 ∷ 0 ∷ 0 ∷ []

for_each_attr-ends_example : walk_attrs 100 one_attr ≡ some (for_each_attr one_attr)
for_each_attr-ends_example = for_each_attr-ends 100 one_attr (omega arith)
