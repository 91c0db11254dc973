-- ===== src/Ubus.antt =====
-- src/ubus.rs: the broker. A connection is its id; a frame is the value that is sent, without the
-- newline. The lock makes each request one step. What the probes of the `system` object find in the
-- system is a parameter (`Probes`), as is the text of a parse error (`parse_message`).
pub mod Broker
pub mod Sets
pub mod Steps
pub mod Counters
pub mod Invariant
pub mod Waiting
pub mod Routing
mod Tests
use lwrt.Base.{
  ℕ, zero, suc, ◌+◌, ◌%◌, ◌^◌, Bool, true, false, not, ◌&&◌, List, [], ◌∷◌, ◌++◌, map, Option, none,
  some, ◌==◌, if◌then◌else◌, get_elem?,
}
use lwrt.Base.Options.{◌>>=◌}
use lwrt.Base.Bytes.{Bytes, codes}
use lwrt.Base.Map.{get, insert, remove, nat_key}
use lwrt.Text.{
  Text, equal, is_empty, trim, lines, split_by, is_whitespace, filter_by, filter_map, strip_prefix,
}
use lwrt.Text.Numbers.{parse_unsigned}
use lwrt.Text.Utf8.{chars}
use lwrt.Json.{
  Floats, Value, Items, null, num, str, array, object, no_items, item, no_pairs, obj, as_str,
  as_u64, as_array,
}
use lwrt.Json as Json
use lwrt.Json.Parser.{parse, Result, ok, err}

pub record Probes : Type 0 where
  pub kernel_release : Bytes
  pub hostname : Bytes
  pub version : Bytes
  pub uptime : ℕ
  pub now_secs : ℕ
  pub proc_meminfo : Text
  pub parse_message : Bytes → Bytes

pub record Object : Type 0 where
  pub path : Bytes
  pub methods : List Bytes
  pub owner : ℕ

-- Sets of connection ids, without repetitions.
abbrev pub Ids : Type 0
Ids = List ℕ

unfoldable pub has : ℕ → Ids → Bool
has i [] = false
has i (j ∷ ids) = if j == i then true else has i ids

unfoldable pub put : ℕ → Ids → Ids
unfolding has
put i ids = if has i ids then ids else i ∷ ids

unfoldable pub discard : ℕ → Ids → Ids
discard i [] = []
discard i (j ∷ ids) = if j == i then discard i ids else j ∷ discard i ids

-- `pending`: id of a call in flight to the caller's connection.
pub record Bus : Type 0 where
  pub objects : List Object
  pub conns : Ids
  pub listeners : Ids
  pub pending : List (ℕ × ℕ)
  pub next_conn : ℕ
  pub next_req : ℕ

-- `Bus::default()`
abbrev pub fresh : Bus
fresh = record {
  objects = [];
  conns = [];
  listeners = [];
  pending = [];
  next_conn = 0;
  next_req = 0;
}

abbrev pub text_or_empty : Option Bytes → Bytes
text_or_empty none = []
text_or_empty (some t) = t

-- `req.get(key).and_then(Value::as_str).unwrap_or("")`
abbrev pub str_field : {F : Type 0} → Bytes → Value F → Bytes
str_field key req = text_or_empty (Json.get key req >>= as_str)

abbrev pub or_else {ℓ} : {A : Type ℓ} → A → Option A → A
or_else d none = d
or_else d (some a) = a

abbrev strings : {F : Type 0} → Items F → List Bytes
strings no_items = []
strings (item v vs) = elim (as_str v) [ none ↦ strings vs | some s ↦ s ∷ strings vs ]

abbrev pub str_items : {F : Type 0} → List Bytes → Items F
str_items [] = no_items
str_items (s ∷ rest) = item (str s) (str_items rest)

abbrev methods_of : {F : Type 0} → Option (Items F) → List Bytes
methods_of none = []
methods_of (some items) = strings items

unfoldable pub any_equal : Bytes → List Bytes → Bool
any_equal m [] = false
any_equal m (n ∷ names) = if equal n m then true else any_equal m names

unfoldable pub find_owner : Bytes → Bytes → List Object → Option ℕ
unfolding any_equal
find_owner path method [] = none
find_owner path method (o ∷ objects) =
    if equal o.path path && any_equal method o.methods
    then some o.owner
    else find_owner path method objects

-- The branches of `handle_request`.
pub data Op : Type 0 where
  list call reply add send listen unknown : Op

unfoldable pub op_of : Bytes → Op
op_of op =
    if equal op (codes "list")
    then list
    else if equal op (codes "call")
    then call
    else if equal op (codes "reply")
    then reply
    else if equal op (codes "add")
    then add
    else if equal op (codes "send")
    then send
    else if equal op (codes "listen")
    then listen
    else unknown

-- The second word of a line of /proc/meminfo.
abbrev kb : Text → ℕ
kb line = or_else 0 (
    get_elem? (filter_by (λ w. not (is_empty w)) (split_by is_whitespace line)) 1
    >>= parse_unsigned (2 ^ 64))

abbrev noted : Option Text → Option Text → ℕ → ℕ × ℕ → ℕ × ℕ
noted (some _) free n (total_kb, free_kb) = (n, free_kb)
noted none (some _) n (total_kb, free_kb) = (total_kb, n)
noted none none n found = found

abbrev meminfo_lines : List Text → ℕ × ℕ → ℕ × ℕ
meminfo_lines [] found = found
meminfo_lines (l ∷ ls) found =
    meminfo_lines ls
      (noted (strip_prefix (codes "MemTotal:") l) (strip_prefix (codes "MemFree:") l) (kb l) found)

-- (MemTotal, MemFree) of the text of /proc/meminfo.
unfoldable pub meminfo : Text → ℕ × ℕ
meminfo text = meminfo_lines (lines text) (0, 0)

module _ (fl : Floats) (p : Probes) where
  abbrev pub V : Type 0
  V = Value fl.F64

  -- What is sent, to which connection.
  abbrev pub Frames : Type 0
  Frames = List (ℕ × V)

  unfoldable pub send_to : Bus → ℕ → V → Frames
  unfolding has
  send_to b conn v = if has conn b.conns then (conn, v) ∷ [] else []

  abbrev pub ok_data : V → V
  ok_data data_ = obj ((codes "status", num (fl.of_u64 0)) ∷ (codes "data", data_) ∷ [])

  abbrev pub status_ok : V
  status_ok = obj ((codes "status", num (fl.of_u64 0)) ∷ [])

  -- `err(-code, msg)`
  abbrev pub error : ℕ → Bytes → V
  error code msg = obj ((codes "status", num (fl.negative code)) ∷ (codes "error", str msg) ∷ [])

  abbrev board : V
  board = obj (
      (codes "kernel", str p.kernel_release)
      ∷ (codes "hostname", str p.hostname)
      ∷ (codes "system", str (codes "LWRT"))
      ∷ (codes "model", str (codes "LWRT router"))
      ∷ (codes "board_name", str (codes "lwrt"))
      ∷ (
        codes "release",
        obj ((codes "distribution", str (codes "LWRT")) ∷ (codes "version", str p.version) ∷ []),
      )
      ∷ [])

  abbrev info : V
  info =
      let (total, free) = meminfo p.proc_meminfo in
      obj (
        (codes "uptime", num (fl.of_u64 p.uptime))
        ∷ (codes "localtime", num (fl.of_u64 p.now_secs))
        ∷ (
          codes "memory",
          obj ((codes "total", num (fl.of_u64 total)) ∷ (codes "free", num (fl.of_u64 free)) ∷ []),
        )
        ∷ [])

  unfoldable pub builtin_call : Bytes → Bytes → Option V
  builtin_call path method =
      if equal path (codes "system")
      then (if equal method (codes "board")
          then some board
          else if equal method (codes "info")
          then some info
          else none)
      else none

  abbrev pub described : Bytes → List Bytes → V
  described path methods =
      obj ((codes "path", str path) ∷ (codes "methods", array (str_items methods)) ∷ [])

  unfoldable pub described_all : List Object → Items fl.F64
  described_all [] = no_items
  described_all (o ∷ objects) = item (described o.path o.methods) (described_all objects)

  unfoldable pub list_objects : Bus → V
  unfolding described_all
  list_objects b = obj (
      (codes "status", num (fl.of_u64 0))
      ∷ (
        codes "objects",
        array (
            item (described (codes "system") (codes "board" ∷ codes "info" ∷ []))
              (described_all b.objects)),
      )
      ∷ [])
