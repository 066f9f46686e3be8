-- ===== src/Handlers/FirewallRules.antt =====
-- internal/handler/firewall.go: the custom rules of the page, and its editor of script files.
pub mod Shown
use srouter.Base.{
  ℕ, Bool, true, false, not, ◌||◌, List, [], ◌∷◌, Option, none, some, if◌then◌else◌, Text, codes,
  text_eq,
}
use srouter.Numbers.{ℤ, Parsed, parsed, bad_syntax, out_of_range, parse_int}
use srouter.World.{World, M, Result, ok, err}
use srouter.Firewall.{
  DirEntry, FirewallRule, FirewallFile, apply_firewall, save_firewall_script,
  get_firewall_file_content, get_firewall_files, get_rules_from_kernel,
}
use srouter.Firewall.Custom.{get_custom_rules, add_custom_rule, delete_custom_rule}
use srouter.Validate.{Net, Invalid, validate_firewall_rule}
use srouter.Handlers.{
  Message, required, failed, invalid_index, not_valid, applied, saved, Reply, http_error, json,
  page, Form, Handler, attempt, items, reply,
}

unfoldable pub rule_of_form : Form → FirewallRule
rule_of_form form = record {
  chain = form (codes "chain");
  protocol = form (codes "protocol");
  in_iface = form (codes "in_iface");
  out_iface = form (codes "out_iface");
  src_ip = form (codes "src_ip");
  dst_ip = form (codes "dst_ip");
  src_port = form (codes "src_port");
  dst_port = form (codes "dst_port");
  action = form (codes "action");
  comment = form (codes "comment");
}

-- the custom rules as they are rendered, an error being no rules
unfoldable pub show_rules : Handler (List FirewallRule)
unfolding items
show_rules w = ((get_custom_rules w).0, page (items (get_custom_rules w).1))

unfoldable pub add_checked : FirewallRule → Option Invalid → Handler (List FirewallRule)
unfolding attempt show_rules
add_checked r (some e) = reply (json false (not_valid e))
add_checked r none = attempt (add_custom_rule r) (json false failed) (λ _. show_rules)

unfoldable pub add_rule : Net → FirewallRule → Handler (List FirewallRule)
unfolding add_checked
add_rule net r =
    if text_eq r.chain [] || text_eq r.action []
    then reply (json false required)
    else add_checked r (validate_firewall_rule net r)

-- `addCustomRule`
unfoldable pub add_custom : Net → Form → Handler (List FirewallRule)
unfolding rule_of_form add_rule
add_custom net form = add_rule net (rule_of_form form)

unfoldable pub delete_at : Parsed ℤ → Handler (List FirewallRule)
unfolding attempt show_rules
delete_at (parsed i) = attempt (delete_custom_rule i) (http_error 500 failed) (λ _. show_rules)
delete_at bad_syntax = reply (http_error 400 invalid_index)
delete_at out_of_range = reply (http_error 400 invalid_index)

-- `deleteCustomRule`
unfoldable pub delete_custom : Text → Handler (List FirewallRule)
unfolding delete_at parse_int
delete_custom index = delete_at (parse_int index)

unfoldable pub save_script : Form → Handler (Unit {0})
unfolding attempt
save_script form =
    attempt (save_firewall_script (form (codes "filename")) (form (codes "content")))
      (json false failed) (λ _. reply (json true saved))

unfoldable pub get_script : Text → Handler FirewallFile
unfolding attempt
get_script name =
    attempt (get_firewall_file_content name) (http_error 400 failed) (λ f. reply (page f))

unfoldable pub apply : Handler (Unit {0})
unfolding attempt
apply = attempt apply_firewall (json false failed) (λ _. reply (json true applied))

abbrev pub no_file : FirewallFile
no_file = record { name = []; path = []; text = [] }

-- the file of a name, with the zero value where there is none
unfoldable pub find_file : Text → List FirewallFile → FirewallFile
find_file name [] = no_file
find_file name (f ∷ fs) = if text_eq f.name name then f else find_file name fs

unfoldable pub first_file : List FirewallFile → FirewallFile
first_file [] = no_file
first_file (f ∷ fs) = f

-- the file that the editor of `show` opens
unfoldable pub selected_file : Text → List FirewallFile → FirewallFile
unfolding find_file first_file
selected_file name fs =
    if text_eq name []
    then first_file fs
    else if text_eq (find_file name fs).name []
    then first_file fs
    else find_file name fs

pub record FirewallPage : Type 0 where
  pub mode : Text
  pub rules : List FirewallRule
  pub custom_rules : List FirewallRule
  pub files : List FirewallFile
  pub selected : FirewallFile

abbrev pub mode_or_ui : Text → Text
mode_or_ui mode = if text_eq mode [] then codes "ui" else mode

unfoldable pub raw_page : Text → Text → List FirewallFile → FirewallPage
unfolding selected_file
raw_page mode file fs = record {
  mode = mode;
  rules = [];
  custom_rules = [];
  files = fs;
  selected = selected_file file fs;
}

abbrev pub is_raw : Text → Bool
is_raw mode = not (text_eq (mode_or_ui mode) (codes "ui"))

-- `show`, with the listings of the kernel and of the directory
unfoldable pub show :
    (Text → Option Text) → Option (List DirEntry) → Text → Text → Handler FirewallPage
unfolding items raw_page
show output entries mode file w =
    if is_raw mode
    then (w, page (raw_page mode file (items (get_firewall_files entries w).1)))
    else (
      w,
      page (record {
        mode = mode_or_ui mode;
        rules = get_rules_from_kernel output;
        custom_rules = items (get_custom_rules w).1;
        files = [];
        selected = no_file;
      }),
    )
