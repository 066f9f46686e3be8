-- ===== src/Handlers/DnsRecords/Upstream.antt =====
-- The form of the upstream servers: valid addresses are what dnsmasq.conf then holds.
use srouter.Base.{
  ap, ◌≤◌, Bool, true, false, ◌&&◌, List, [], ◌∷◌, ◌≡◌, ◌⊎◌, refl, sym, ◌∙◌, arith, Option, none,
  some, Text, text_eq, if◌then◌else◌, All, length, collect, collect-cons, collect-cons_none,
  collect-nil, map, Bool-cases, inl, inr,
}
use srouter.Strings.{trim_space, trim_right, split_n}
use srouter.Strings.Trim.{trim_right-trim_space}
use srouter.Strings.Lines.{IsLine}
use srouter.Strings.Split.{length-split_n}
use srouter.World.{World, Result, ok, err, Editable}
use srouter.Numbers.{parse_int}
use srouter.Dns.{
  dnsmasq_conf, UpstreamServer, get_upstream_servers, get_local_entries, set_upstream_servers,
  server_line, server_key,
}
use srouter.Dns.Upstream.{
  trimmed, get_upstream_servers-set_upstream_servers, get_local_entries-set_upstream_servers,
}
use srouter.Validate.{
  Net, Invalid, every, is_alnum, is_digit, is_lower, is_upper, host_tail, hostname_re, demand,
  is_port_number, validate_host, validate_server_parts, validate_dns_server,
}
use srouter.Validate.Runes.{Token, All-imp, PortRune-Token}
use srouter.Validate.Values.{split_n-All, port-PortRune}
use srouter.Validate.Rules.{Documented, demand-none, is_address_rune-Address}
use srouter.Validate.Forwards.{tokens, lit, ◌&◌, Short-IsPlain}
use srouter.Handlers.{json, go_on, reply, saved, failed}
use srouter.Handlers.DnsRecords.{accepted, with_server, servers_of_form, set_servers, set_upstream}

host_tail-Token : (s : Text) → host_tail s ≡ true → All Token s
unfolding host_tail is_alnum is_digit is_lower is_upper
host_tail-Token [] h = tt
host_tail-Token (c ∷ []) h = ground arith
host_tail-Token (c ∷ d ∷ s) h = ground (arith, host_tail-Token (d ∷ s))

hostname_re-Token : (s : Text) → hostname_re s ≡ true → All Token s
unfolding hostname_re is_alnum is_digit is_lower is_upper
hostname_re-Token [] h = tt
hostname_re-Token (c ∷ []) h = ground arith
hostname_re-Token (c ∷ d ∷ s) h = ground (arith, host_tail-Token (d ∷ s))

host_or_ip :
    (a b c : Bool) (e : Invalid)
    → (if a then none else demand (b && c) e none) ≡ none
    → (a ≡ true) ⊎ (c ≡ true)
unfolding demand
host_or_ip true b c e h = inl refl
host_or_ip false true c e h = inr (demand-none c e none h).0
host_or_ip false false c e h = cc h

module _ (net : Net) (doc : Documented net) where
  validate_host-Token : (s : Text) → validate_host net s ≡ none → All Token s
  unfolding validate_host
  validate_host-Token s h = elim (host_or_ip (net.is_ip s) _ (hostname_re s) _ h) [
    | inl e ↦ All-imp (λ c p. p.0) s (is_address_rune-Address s (doc.ip s e).0)
    | inr e ↦ hostname_re-Token s e
  ]

  parts-Token :
      (ps : List Text) → validate_server_parts net ps ≡ none → length ps ≤ 2 → All (All Token) ps
  unfolding validate_server_parts
  parts-Token [] h k = tt
  parts-Token (host ∷ []) h k = (validate_host-Token host h, tt)
  parts-Token (host ∷ port ∷ []) h k =
      let (a, b) = demand-none (is_port_number (parse_int port)) _ _ h in
      (validate_host-Token host b, (All-imp PortRune-Token port (port-PortRune port a), tt))
  parts-Token (host ∷ port ∷ p ∷ ps) h k = absurd (omega (arith, k))

  -- An address that the test accepts is printable and holds no white space.
  validate_dns_server-Token : (s : Text) → validate_dns_server net s ≡ none → All Token s
  unfolding validate_dns_server
  validate_dns_server-Token s h =
      split_n-All Token b'#' 1 s (omega arith)
        (parts-Token (split_n b'#' 1 s) h (length-split_n b'#' 1 s))

-- the server of one value of the form, if the value is not blank
abbrev pub given_server : Text → Option UpstreamServer
given_server a =
    if text_eq (trim_space a) [] then none else some (record { address = trim_space a })

-- A value that is blank, or valid and not overlong.
abbrev pub IsGood : Net → Text → Type 0
IsGood net a =
    (text_eq (trim_space a) [] ≡ true)
    ⊎ ((validate_dns_server net (trim_space a) ≡ none) × (length (trim_space a) ≤ 60000))

given_blank :
    (a : Text) (addrs : List Text)
    → text_eq (trim_space a) [] ≡ true
    → collect given_server (a ∷ addrs) ≡ collect given_server addrs
given_blank a addrs e = collect-cons_none given_server a addrs (rw e)

given_more :
    (a : Text) (addrs : List Text)
    → text_eq (trim_space a) [] ≡ false
    → collect given_server (a ∷ addrs)
      ≡ record { address = trim_space a } ∷ collect given_server addrs
given_more a addrs e = collect-cons given_server a addrs (rw e)

servers-given :
    (net : Net) (addrs : List Text)
    → All (IsGood net) addrs
    → servers_of_form net addrs ≡ accepted (collect given_server addrs)
unfolding servers_of_form with_server
servers-given net [] _ = ap accepted (sym (collect-nil given_server))
servers-given net (a ∷ addrs) (inl e, hs) =
    rw (e, given_blank a addrs e, servers-given net addrs hs)
servers-given net (a ∷ addrs) (inr h, hs) = elim (Bool-cases (text_eq (trim_space a) [])) [
  | inl e ↦ rw (e, given_blank a addrs e, servers-given net addrs hs)
  | inr e ↦ rw (e, given_more a addrs e, h.0, servers-given net addrs hs)
]

given-IsLine :
    (net : Net)
    → Documented net
    → (addrs : List Text) → All (IsGood net) addrs
    → All IsLine (map server_line (collect given_server addrs))
given-IsLine net doc [] _ = rw (collect-nil given_server) tt
given-IsLine net doc (a ∷ addrs) (inl e, hs) =
    rw (given_blank a addrs e) (given-IsLine net doc addrs hs)
given-IsLine net doc (a ∷ addrs) (inr h, hs) = elim (Bool-cases (text_eq (trim_space a) [])) [
  | inl e ↦ rw (given_blank a addrs e) (given-IsLine net doc addrs hs)
  | inr e ↦ rw (given_more a addrs e) (short (trim_space a) h, given-IsLine net doc addrs hs)
]
  where
    short :
        (t : Text)
        → (validate_dns_server net t ≡ none) × (length t ≤ 60000)
        → IsLine (server_line (record { address = t }))
    short t (v, k) =
        unfold server_line every in
        (Short-IsPlain _ _ (omega arith)
          (lit server_key refl & tokens 60000 t (validate_dns_server-Token net doc t v) k)).0

given-trimmed :
    (addrs : List Text) → map trimmed (collect given_server addrs) ≡ collect given_server addrs
given-trimmed [] = rw (collect-nil given_server)
given-trimmed (a ∷ addrs) = elim (Bool-cases (text_eq (trim_space a) [])) [
  | inl e ↦ rw (given_blank a addrs e) (given-trimmed addrs)
  | inr e ↦ rw (given_more a addrs e) (more (given-trimmed addrs))
]
  where
    more :
        map trimmed (collect given_server addrs) ≡ collect given_server addrs
        → record { address = trim_right (trim_space a) } ∷ map trimmed (collect given_server addrs)
          ≡ record { address = trim_space a } ∷ collect given_server addrs
    more h = rw (trim_right-trim_space a, h)

set_servers_world :
    (us : List UpstreamServer) (w : World)
    → (set_servers (accepted us) w).0 ≡ (set_upstream_servers us w).0
unfolding set_servers go_on
set_servers_world us w = same (set_upstream_servers us w).0 (set_upstream_servers us w).1
  where
    same :
        (v : World) (res : Result (Unit {0}))
        → (go_on {B = Unit {0}} (json false failed) (λ _. reply (json true saved)) v res).0 ≡ v
    same v (ok _) = refl
    same v (err e) = refl

-- Of valid values the form leaves just those that are not blank as upstream servers, trimmed and in
-- their order, and the local records as they are read; no value may be overlong, and net.ParseIP is
-- as documented.
pub get_upstream_servers-set_upstream :
    {w : World} {s : Text} (net : Net) (addrs : List Text)
    → Documented net
    → Editable w dnsmasq_conf s
    → All (IsGood net) addrs
    → ((get_upstream_servers (set_upstream net addrs w).0).1 ≡ ok (collect given_server addrs))
      × ((get_local_entries (set_upstream net addrs w).0).1 ≡ (get_local_entries w).1)
get_upstream_servers-set_upstream {w = w} net addrs doc e good =
    let us = collect given_server addrs in
    let lines = given-IsLine net doc addrs good in
    let after =
      ap (λ x. (set_servers x w).0) (servers-given net addrs good) ∙ set_servers_world us w in
    (
      ap (λ v. (get_upstream_servers v).1) (opened ∙ after)
          ∙ rw (given-trimmed addrs) at (get_upstream_servers-set_upstream_servers us e lines),
      ap (λ v. (get_local_entries v).1) (opened ∙ after)
          ∙ get_local_entries-set_upstream_servers us e lines,
    )
  where
    opened : (set_upstream net addrs w).0 ≡ (set_servers (servers_of_form net addrs) w).0
    opened = unfold set_upstream in refl
