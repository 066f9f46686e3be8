-- ===== src/Firewall/Custom/Command.antt =====
-- The command of a writable rule, as a line of the file: how `GetCustomRules` reads it.
use srouter.Base.{
  ◌≢◌, true, false, List, [], ◌∷◌, ◌++◌, ◌≡◌, refl, arith, none, some, Text, codes, All, All-append,
  Lacks, text_eq,
}
use srouter.Strings.{trim_space, has_prefix, is_space}
use srouter.Strings.Prefix.{has_prefix-append}
use srouter.Strings.Trim.{
  Ends, append-Ends, Solid-Ends, Solid, is_solid, is_solid_sound, trim_space-append,
}
use srouter.Firewall.{FirewallRule}
use srouter.Firewall.Custom.{
  is_iptables_line, custom_row, build_iptables_command, with_chain, unless_all, option,
}
use srouter.Firewall.Custom.Words.{Writable, as_parsed, text_eq-ne-nil}
use srouter.Firewall.Custom.RoundTrip.{parse_iptables_line-build_iptables_command}

abbrev glue : List Text → Text → Text
glue [] end = end
glue (p ∷ ps) end = p ++ glue ps end

-- what stands behind the word `iptables`, up to the action
abbrev pieces : FirewallRule → List Text
pieces r =
    codes " -A "
    ∷ r.chain
    ∷ option (codes "-p") (unless_all r.protocol)
    ∷ option (codes "-i") r.in_iface
    ∷ option (codes "-o") r.out_iface
    ∷ option (codes "-s") r.src_ip
    ∷ option (codes "-d") r.dst_ip
    ∷ option (codes "--sport") r.src_port
    ∷ option (codes "--dport") r.dst_port
    ∷ codes " -j "
    ∷ []

arguments : FirewallRule → Text
arguments r = glue (pieces r) r.action

build-arguments :
    (r : FirewallRule) → Writable r → build_iptables_command r ≡ codes "iptables" ++ arguments r
build-arguments r h =
    unfold build_iptables_command arguments in
    rw (text_eq-ne-nil r.chain h.chain_ne_nil, text_eq-ne-nil r.action h.action_ne_nil)

glue-Ends : (ps : List Text) (end : Text) → Ends end → Ends (glue ps end)
glue-Ends [] end h = h
glue-Ends (p ∷ ps) end h = append-Ends p (glue ps end) (glue-Ends ps end h)

arguments-Ends : (r : FirewallRule) → Writable r → Ends (arguments r)
unfolding arguments
arguments-Ends r h = glue-Ends (pieces r) r.action (Solid-Ends r.action h.action.0 h.action_ne_nil)

iptables-Solid : All Solid (codes "iptables")
unfolding is_solid
iptables-Solid = is_solid_sound (codes "iptables") refl

trim_space-build :
    (r : FirewallRule)
    → Writable r
    → trim_space (build_iptables_command r) ≡ build_iptables_command r
trim_space-build r h = rw (
  build-arguments r h,
  trim_space-append b'i' (codes "ptables") (arguments r) iptables-Solid,
  (arguments-Ends r h).0,
)

pub custom_row-build :
    (r : FirewallRule) → Writable r → custom_row (build_iptables_command r) ≡ some (as_parsed r)
custom_row-build r h =
    unfold custom_row is_iptables_line with_chain in
    rw (
      trim_space-build r h,
      starts,
      parse_iptables_line-build_iptables_command r h,
      text_eq-ne-nil r.chain h.chain_ne_nil,
    )
  where
    starts : has_prefix (build_iptables_command r) (codes "iptables") ≡ true
    starts = rw (build-arguments r h) (has_prefix-append (codes "iptables") (arguments r))

pub custom_row-comment : (c : Text) → custom_row (codes "# " ++ c) ≡ none
custom_row-comment c =
    unfold custom_row is_iptables_line in
    rw (trim_space-append b'#' [] (b' ' ∷ c) hash) (unfold has_prefix in refl)
  where
    hash : All Solid (b'#' ∷ [])
    hash = unfold is_space in (refl, tt)

Solid-Lacks : (s : Text) → All Solid s → Lacks b'\n' s
unfolding is_space
Solid-Lacks [] _ = tt
Solid-Lacks (c ∷ s) (h, hs) = (ground arith, Solid-Lacks s hs)

option-Lacks : (flag v : Text) → Lacks b'\n' flag → All Solid v → Lacks b'\n' (option flag v)
unfolding option
option-Lacks flag [] h k = tt
option-Lacks flag (c ∷ v) h k = (
  omega arith,
  All-append (λ d. d ≢ b'\n') flag (b' ' ∷ c ∷ v) h (omega arith, Solid-Lacks (c ∷ v) k),
)

glue-Lacks :
    (ps : List Text) (end : Text)
    → All (Lacks b'\n') ps
    → Lacks b'\n' end
    → Lacks b'\n' (glue ps end)
glue-Lacks [] end _ h = h
glue-Lacks (p ∷ ps) end (k, ks) h =
    All-append (λ d. d ≢ b'\n') p (glue ps end) k (glue-Lacks ps end ks h)

pub build-Lacks : (r : FirewallRule) → Writable r → Lacks b'\n' (build_iptables_command r)
build-Lacks r h =
    rw (build-arguments r h)
      (All-append (λ d. d ≢ b'\n') (codes "iptables") (arguments r) (omega arith) (behind r h))
  where
    behind : (r : FirewallRule) → Writable r → Lacks b'\n' (arguments r)
    behind r h =
        unfold arguments in
        glue-Lacks (pieces r) r.action
          (
            omega arith,
            (
              Solid-Lacks r.chain h.chain.0,
              (
                option-Lacks (codes "-p") (unless_all r.protocol) (omega arith) h.protocol.0,
                (
                  option-Lacks (codes "-i") r.in_iface (omega arith) h.in_iface.0,
                  (
                    option-Lacks (codes "-o") r.out_iface (omega arith) h.out_iface.0,
                    (
                      option-Lacks (codes "-s") r.src_ip (omega arith) h.src_ip.0,
                      (
                        option-Lacks (codes "-d") r.dst_ip (omega arith) h.dst_ip.0,
                        (
                          option-Lacks (codes "--sport") r.src_port (omega arith) h.src_port.0,
                          (
                            option-Lacks (codes "--dport") r.dst_port (omega arith) h.dst_port.0,
                            (omega arith, tt),
                          ),
                        ),
                      ),
                    ),
                  ),
                ),
              ),
            ),
          )
          (Solid-Lacks r.action h.action.0)

pub build-ne-nil : (r : FirewallRule) → Writable r → text_eq (build_iptables_command r) [] ≡ false
build-ne-nil r h = rw (build-arguments r h) (unfold text_eq in refl)
