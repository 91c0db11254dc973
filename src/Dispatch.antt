-- ===== src/Dispatch.antt =====
-- src/main.rs: which applet a command line runs. The applets are their names here; `ifup` is not
-- modelled, since it is calls of the kernel.
pub mod Symlinks
use lwrt.Base.{ℕ, Bool, true, false, ◌||◌, List, [], ◌∷◌, if◌then◌else◌}
use lwrt.Base.Bytes.{codes}
use lwrt.Text.{Text, equal, split, is_empty}

abbrev pub last_or : Text → List Text → Text
last_or s [] = s
last_or s (part ∷ []) = part
last_or s (part ∷ next ∷ parts) = last_or s (next ∷ parts)

-- `s.rsplit('/').next().unwrap_or(s)`
unfoldable pub base_name : Text → Text
base_name s = last_or s (split b'/' s)

abbrev pub from_first : List Text → Text × List Text
from_first [] = (codes "help", [])
from_first (applet ∷ rest) = (applet, rest)

abbrev pub from_arg0 : Text → List Text → Text × List Text
from_arg0 arg0 rest =
    if equal arg0 (codes "lwrt") || is_empty arg0 then from_first rest else (arg0, rest)

unfoldable pub select : List Text → Text × List Text
unfolding base_name
select [] = from_arg0 (codes "lwrt") []
select (arg ∷ rest) = from_arg0 (base_name arg) rest

abbrev pub applets : List Text
applets =
    codes "init"
    ∷ codes "ifup"
    ∷ codes "dhcp"
    ∷ codes "dns"
    ∷ codes "fw"
    ∷ codes "wg"
    ∷ codes "httpd"
    ∷ codes "ipkg"
    ∷ codes "ntp"
    ∷ codes "log"
    ∷ codes "ubus"
    ∷ codes "mtd"
    ∷ codes "sysupgrade"
    ∷ []

unfoldable pub is_one_of : Text → List Text → Bool
is_one_of name [] = false
is_one_of name (x ∷ xs) = equal name x || is_one_of name xs

-- An applet gives its own exit code; the text of the usage comes with one.
pub data Action : Type 0 where
  run_applet : Text → List Text → Action
  print_version : Action
  usage : ℕ → Action

unfoldable pub action : Text × List Text → Action
unfolding is_one_of
action (applet, rest) =
    if is_one_of applet applets
    then run_applet applet rest
    else if equal applet (codes "version")
    then print_version
    else if is_one_of applet (codes "help" ∷ codes "--help" ∷ codes "-h" ∷ [])
    then usage 0
    else usage 1

unfoldable pub main : List Text → Action
unfolding select action
main args = action (select args)
