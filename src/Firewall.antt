-- ===== src/Firewall.antt =====
-- internal/system/firewall.go: the rules, the files of /etc/firewall.d and the rules of the kernel.
pub mod Files
pub mod PortForward
pub mod Custom
use srouter.Base.{
  ℕ, zero, suc, Bool, true, false, not, ◌||◌, ◌&&◌, List, [], ◌∷◌, ◌++◌, Option, none, some,
  if◌then◌else◌, Text, codes, text_eq, collect, map,
}
use srouter.Strings.{has_prefix, has_suffix, trim_prefix, has_rune, split, scan_lines, fields, join}
use srouter.World.{
  M, Result, ok, err, Fault, pure, fail, open_failed, command_failed, invalid_name, ◌>>=◌, ◌>>◌,
  Reading, absent, denied, content, open_file, opened, opened_or, write_file, run, reading, World,
}

abbrev pub firewall_script : Text
firewall_script = codes "/etc/firewall.sh"

abbrev pub firewall_d_dir : Text
firewall_d_dir = codes "/etc/firewall.d"

abbrev pub port_forward_file : Text
port_forward_file = codes "/etc/firewall.d/50-portforward.sh"

abbrev pub custom_rules_file : Text
custom_rules_file = codes "/etc/firewall.d/99-custom.sh"

pub record FirewallRule : Type 0 where
  pub chain : Text
  pub protocol : Text
  pub in_iface : Text
  pub out_iface : Text
  pub src_ip : Text
  pub dst_ip : Text
  pub src_port : Text
  pub dst_port : Text
  pub action : Text
  pub comment : Text

pub record FirewallFile : Type 0 where
  pub name : Text
  pub path : Text
  pub text : Text

pub record PortForwardRule : Type 0 where
  pub name : Text
  pub protocol : Text
  pub ext_port : Text
  pub int_ip : Text
  pub int_port : Text

abbrev pub no_rule : FirewallRule
no_rule = record {
  chain = [];
  protocol = [];
  in_iface = [];
  out_iface = [];
  src_ip = [];
  dst_ip = [];
  src_port = [];
  dst_port = [];
  action = [];
  comment = [];
}

-- `filepath.Clean` of a rooted path: the components behind those that are kept, the last first
unfoldable pub clean_parts : List Text → List Text → List Text
clean_parts kept [] = kept
clean_parts [] (p ∷ ps) =
    clean_parts
      (if text_eq p [] || text_eq p (codes ".") || text_eq p (codes "..") then [] else p ∷ []) ps
clean_parts (k ∷ kept) (p ∷ ps) =
    clean_parts
      (if text_eq p [] || text_eq p (codes ".")
        then k ∷ kept
        else if text_eq p (codes "..")
        then kept
        else p ∷ k ∷ kept)
      ps

-- the components in their order, each behind a slash
unfoldable pub rooted : List Text → Text → Text
rooted [] rest = rest
rooted (k ∷ kept) rest = rooted kept (b'/' ∷ (k ++ rest))

unfoldable pub or_root : Text → Text
or_root [] = codes "/"
or_root (c ∷ s) = c ∷ s

-- `filepath.Join` of a rooted directory and a name
unfoldable pub path_join : Text → Text → Text
unfolding clean_parts rooted or_root
path_join dir name = or_root (rooted (clean_parts [] (split b'/' (dir ++ (b'/' ∷ name)))) [])

unfoldable pub validate_firewall_file_name : Text → Result (Unit {0})
validate_firewall_file_name name =
    if text_eq name []
      || (has_rune b'/' name || has_rune b'\\' name)
      || not (has_suffix name (codes ".sh"))
    then err invalid_name
    else if not (has_prefix (path_join firewall_d_dir name) (firewall_d_dir ++ codes "/"))
    then err invalid_name
    else ok tt

-- the check as a step of an operation
unfoldable pub checked : Text → M (Unit {0})
unfolding validate_firewall_file_name
checked name w = (w, validate_firewall_file_name name)

unfoldable pub get_firewall_script : M Text
get_firewall_script = do f ← open_file firewall_script; opened f

unfoldable pub get_firewall_file_content : Text → M FirewallFile
get_firewall_file_content name = do
  checked name
  f ← open_file (path_join firewall_d_dir name)
  s ← opened f
  pure (record { name = name; path = path_join firewall_d_dir name; text = s })

unfoldable pub save_firewall_script : Text → Text → M (Unit {0})
save_firewall_script name text = do checked name; write_file (path_join firewall_d_dir name) text

unfoldable pub apply_firewall : M (Unit {0})
apply_firewall = run (firewall_script ∷ [])

-- an entry of a directory, as `os.ReadDir` gives it
pub record DirEntry : Type 0 where
  pub name : Text
  pub is_dir : Bool

unfoldable pub text_or_empty : Reading → Text
text_or_empty (content s) = s
text_or_empty absent = []
text_or_empty denied = []

unfoldable pub firewall_file : World → DirEntry → Option FirewallFile
unfolding text_or_empty
firewall_file w e =
    if e.is_dir || not (has_suffix e.name (codes ".sh"))
    then none
    else some (record {
      name = e.name;
      path = path_join firewall_d_dir e.name;
      text = text_or_empty (
          reading (w.readable (path_join firewall_d_dir e.name))
            (w.files (path_join firewall_d_dir e.name)));
    })

-- `entries` is the sorted listing of the directory, `none` if there is no directory.
unfoldable pub get_firewall_files : Option (List DirEntry) → M (List FirewallFile)
get_firewall_files none w = (w, ok [])
get_firewall_files (some entries) w = (w, ok (collect (firewall_file w) entries))

abbrev double_dash : Text
double_dash = codes "--"

unfoldable pub unless_dashes : Text → Text
unless_dashes f = if text_eq f double_dash then [] else f

-- the loop over the fields behind the addresses: the last `dpt:` counts
unfoldable pub with_dports : FirewallRule → List Text → FirewallRule
with_dports r [] = r
with_dports r (f ∷ fs) =
    with_dports
      (if has_prefix f (codes "dpt:")
        then record r { dst_port = trim_prefix f (codes "dpt:") }
        else r)
      fs

unfoldable pub kernel_rule : Text → List Text → Option FirewallRule
unfolding unless_dashes with_dports
kernel_rule chain (n ∷ a ∷ p ∷ src ∷ []) =
    some (record no_rule { chain = chain; action = a; protocol = p; src_ip = unless_dashes src })
kernel_rule chain (n ∷ a ∷ p ∷ src ∷ dst ∷ fs) = some (
    with_dports
      (record no_rule {
        chain = chain;
        action = a;
        protocol = p;
        src_ip = unless_dashes src;
        dst_ip = unless_dashes dst;
      })
      fs)
kernel_rule chain _ = none

-- without the line of the chain and the line of the column heads
unfoldable pub skip_two : List Text → List Text
skip_two [] = []
skip_two (a ∷ []) = []
skip_two (a ∷ b ∷ ls) = ls

-- `output` is what `iptables -L CHAIN -n --line-numbers` prints, if it succeeds.
unfoldable pub chain_rules : (Text → Option Text) → Text → List FirewallRule
unfolding kernel_rule skip_two
chain_rules output chain = elim (output chain) [
  | none ↦ []
  | some s ↦ collect (λ l. kernel_rule chain (fields l)) (skip_two (scan_lines s))
]

unfoldable pub get_rules_from_kernel : (Text → Option Text) → List FirewallRule
unfolding chain_rules
get_rules_from_kernel output =
    chain_rules output (codes "INPUT")
    ++ (chain_rules output (codes "FORWARD") ++ chain_rules output (codes "OUTPUT"))
