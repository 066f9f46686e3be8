-- ===== src/Encrypted/Switch/Keep.antt =====
-- Whatever fails on the way, dnsmasq.conf stays a file that can be read and written.
use srouter.Base.{
  Bool, true, false, List, Option, if◌then◌else◌, Text, text_eq, Bool-cases, inl, inr,
}
use srouter.World.{
  World, Result, ok, err, M, ◌>>=◌, ◌>>◌, pure, resume, open_file, opened, Reading, absent, denied,
  content, write_file, run, mkdir_all, Editable,
}
use srouter.World.Laws.{run-Editable}
use srouter.Dns.{dnsmasq_conf, UpstreamServer, set_upstream_servers, reload_dnsmasq}
use srouter.Encrypted.{DohProvider, DohConfig, Installed, set_strict_order, resolve_provider}
use srouter.Encrypted.Stamp.{Url}
use srouter.Encrypted.Switch.{
  write_stubby_config, write_doh_proxy_config, dnscrypt_text, lifted, try_run, service_up,
  service_down, start_and_point,
}

-- dnsmasq.conf with some content
abbrev pub Kept : World → Type 0
Kept w = (s : Text) × Editable w dnsmasq_conf s

pub record Keeps {A : Type 0} (m : M A) : Type 0 where
  pub kept : (w : World) → Kept w → Kept (m w).0

pub Keeps-bind :
    {A B : Type 0} (m : M A) (f : A → M B) → Keeps m → ((a : A) → Keeps (f a)) → Keeps (m >>= f)
Keeps-bind m f hm hf = record { kept = λ w k. after (m w).0 (m w).1 (hm.kept w k) }
  where
    after : (w' : World) (r : Result _) → Kept w' → Kept (resume f w' r).0
    after w' (ok a) k = (hf a).kept w' k
    after w' (err e) k = k

pub Keeps-then : {B : Type 0} (m : M (Unit {0})) (n : M B) → Keeps m → Keeps n → Keeps (m >> n)
Keeps-then m n hm hn = Keeps-bind m (λ _. n) hm (λ _. hn)

pub Keeps-pure : {A : Type 0} (a : A) → Keeps (pure a)
Keeps-pure a = record { kept = λ w k. k }

pub Keeps-fail : {A : Type 0} (r : Result A) → Keeps (lifted r)
Keeps-fail (ok a) = record { kept = λ w k. k }
Keeps-fail (err e) = record { kept = λ w k. k }

pub Keeps-if : {A : Type 0} (b : Bool) (m n : M A) → Keeps m → Keeps n → Keeps (if b then m else n)
Keeps-if true m n hm hn = hm
Keeps-if false m n hm hn = hn

pub run-Keeps : (argv : List Text) → Keeps (run argv)
run-Keeps argv = record { kept = λ w k. (k.0, run-Editable argv k.1) }

pub mkdir_all-Keeps : (p : Text) → Keeps (mkdir_all p)
unfolding mkdir_all
mkdir_all-Keeps p = record { kept = λ w k. k }

write_file-Kept : (p t : Text) (w : World) → Kept w → Kept (write_file p t w).0
unfolding write_file
write_file-Kept p t w (s, e) = elim (Bool-cases (w.writable p)) [
  | inr h ↦ rw h (s, e)
  | inl h ↦ rw h (elim (Bool-cases (text_eq p dnsmasq_conf)) [
    | inl same ↦ (t, record { present = rw same; can_read = e.can_read; can_write = e.can_write })
    | inr other ↦
        (s, record { present = rw other e.present; can_read = e.can_read; can_write = e.can_write })
  ])
]

pub write_file-Keeps : (p t : Text) → Keeps (write_file p t)
write_file-Keeps p t = record { kept = write_file-Kept p t }

pub open_file-Keeps : (p : Text) → Keeps (open_file p)
unfolding open_file
open_file-Keeps p = record { kept = λ w k. k }

pub opened-Keeps : (f : Reading) → Keeps (opened f)
unfolding opened
opened-Keeps absent = record { kept = λ w k. k }
opened-Keeps denied = record { kept = λ w k. k }
opened-Keeps (content s) = record { kept = λ w k. k }

pub reload_dnsmasq-Keeps : Keeps reload_dnsmasq
unfolding reload_dnsmasq
reload_dnsmasq-Keeps = run-Keeps _

pub set_upstream_servers-Keeps : (us : List UpstreamServer) → Keeps (set_upstream_servers us)
unfolding set_upstream_servers
set_upstream_servers-Keeps us =
    Keeps-bind (open_file dnsmasq_conf) _ (open_file-Keeps dnsmasq_conf) (λ f.
      Keeps-bind (opened f) _ (opened-Keeps f)
        (λ s. Keeps-then _ reload_dnsmasq (write_file-Keeps dnsmasq_conf _) reload_dnsmasq-Keeps))

pub set_strict_order-Keeps : (enable : Bool) → Keeps (set_strict_order enable)
unfolding set_strict_order
set_strict_order-Keeps enable =
    Keeps-bind (open_file dnsmasq_conf) _ (open_file-Keeps dnsmasq_conf)
      (λ f. Keeps-bind (opened f) _ (opened-Keeps f) (λ s. write_file-Keeps dnsmasq_conf _))

try_run-Keeps : (argv : List Text) → Keeps (try_run argv)
unfolding try_run
try_run-Keeps argv = record { kept = (run-Keeps argv).kept }

service_up-Keeps : (svc : Text) → Keeps (service_up svc)
unfolding service_up
service_up-Keeps svc = Keeps-then _ _ (try_run-Keeps _) (try_run-Keeps _)

pub service_down-Keeps : (svc : Text) → Keeps (service_down svc)
unfolding service_down
service_down-Keeps svc = Keeps-then _ _ (try_run-Keeps _) (try_run-Keeps _)

write_stubby_config-Keeps : (p : DohProvider) → Keeps (write_stubby_config p)
unfolding write_stubby_config
write_stubby_config-Keeps p = Keeps-then _ _ (mkdir_all-Keeps _) (write_file-Keeps _ _)

write_doh_proxy_config-Keeps :
    (parse_url : Text → Option Url) (p : DohProvider) → Keeps (write_doh_proxy_config parse_url p)
unfolding write_doh_proxy_config
write_doh_proxy_config-Keeps parse_url p = Keeps-then _ _ (mkdir_all-Keeps _) (
    Keeps-then _ _ (mkdir_all-Keeps _) (
      Keeps-bind (lifted (dnscrypt_text parse_url p)) _ (Keeps-fail (dnscrypt_text parse_url p))
        (λ t. write_file-Keeps _ t)))

pub start_and_point-Keeps :
    (parse_url : Text → Option Url) (i : Installed) (cfg : DohConfig)
    → Keeps (start_and_point parse_url i cfg)
unfolding start_and_point
start_and_point-Keeps parse_url i cfg =
    Keeps-then _ _
      (Keeps-if i.stubby _ _
        (Keeps-then _ _ (write_stubby_config-Keeps (resolve_provider cfg)) (service_up-Keeps _))
        (Keeps-pure tt))
      (Keeps-then _ _
        (Keeps-if i.dnscrypt _ _
          (Keeps-then _ _ (write_doh_proxy_config-Keeps parse_url (resolve_provider cfg))
            (service_up-Keeps _))
          (Keeps-pure tt))
        (Keeps-then _ _ (set_upstream_servers-Keeps _)
          (Keeps-then _ _ (set_strict_order-Keeps true) reload_dnsmasq-Keeps)))
