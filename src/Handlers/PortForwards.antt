-- ===== src/Handlers/PortForwards.antt =====
-- internal/handler/portforward.go: the port forwards of the page, added and deleted by a form.
pub mod Shown
use srouter.Base.{
  ℕ, Bool, true, false, ◌||◌, List, [], ◌∷◌, Option, none, some, if◌then◌else◌, Text, codes,
  text_eq,
}
use srouter.Firewall.{PortForwardRule, apply_firewall}
use srouter.Firewall.PortForward.{
  get_port_forward_rules, add_port_forward_rule, delete_port_forward_rule,
}
use srouter.Validate.{Net, Invalid, validate_port_forward_rule, pf_name_re}
use srouter.Handlers.{
  Message, required, failed, invalid_rule_name, not_valid, applied, Reply, http_error, json, page,
  Form, Handler, attempt, items, reply,
}
use srouter.World.{World}

abbrev pub or_else : Text → Text → Text
or_else s default = if text_eq s [] then default else s

-- the rule of the form, with the defaults of the internal port and of the protocol
unfoldable pub with_defaults : PortForwardRule → PortForwardRule
with_defaults r = record r {
  int_port = or_else r.int_port r.ext_port;
  protocol = or_else r.protocol (codes "tcp");
}

unfoldable pub rule_of_form : Form → PortForwardRule
rule_of_form form = record {
  name = form (codes "name");
  protocol = form (codes "protocol");
  ext_port = form (codes "ext_port");
  int_ip = form (codes "int_ip");
  int_port = form (codes "int_port");
}

unfoldable pub lacks_field : PortForwardRule → Bool
lacks_field r = text_eq r.name [] || text_eq r.ext_port [] || text_eq r.int_ip []

unfoldable pub show : Handler (List PortForwardRule)
unfolding items
show w = ((get_port_forward_rules w).0, page (items (get_port_forward_rules w).1))

-- what follows the validation
unfoldable pub add_valid : (ℕ → ℕ) → PortForwardRule → Option Invalid → Handler PortForwardRule
unfolding attempt
add_valid wide r (some e) = reply (http_error 400 (not_valid e))
add_valid wide r none =
    attempt (add_port_forward_rule wide r) (http_error 500 failed) (λ _. reply (page r))

unfoldable pub add_rule : Net → (ℕ → ℕ) → PortForwardRule → Handler PortForwardRule
unfolding lacks_field with_defaults add_valid
add_rule net wide r =
    if lacks_field r
    then reply (http_error 400 required)
    else add_valid wide (with_defaults r) (validate_port_forward_rule net (with_defaults r))

unfoldable pub add : Net → (ℕ → ℕ) → Form → Handler PortForwardRule
unfolding rule_of_form add_rule
add net wide form = add_rule net wide (rule_of_form form)

unfoldable pub delete : Text → Handler (Unit {0})
unfolding attempt
delete name =
    if pf_name_re name
    then attempt (delete_port_forward_rule name) (http_error 500 failed) (λ _. reply (page tt))
    else reply (http_error 400 invalid_rule_name)

unfoldable pub apply : Handler (Unit {0})
unfolding attempt
apply = attempt apply_firewall (json false failed) (λ _. reply (json true applied))
