-- ===== src/Tests/System.antt =====
-- The reboot, the updater, the statistics, the dashboard and the rest, at small inputs.
use srouter.Base.{
  ℕ, ◌+◌, ◌<◌, true, false, List, [], ◌∷◌, ◌++◌, ◌≡◌, refl, arith, none, some, Text, codes, text_eq,
  length, All,
}
use srouter.Reboot.{
  time_re, schedule, fired, armed, Watch, Step, Run, rest, then_step, started, read_row, read_none,
  wake, saves, sends, request_schedule,
}
use srouter.Reboot.Steps.{Knows, some_sending, Run-Knows, cancel_schedule_misses}
use srouter.Updater.{UpdateChecker, UpdateInfo, no_answer, answered, check, is_recent}
use srouter.Updater.Install.{Host, install}
use srouter.Updater.Installed.{Installs, install_sound}
use srouter.Updater.Checked.{check-check}
use srouter.DnsStats.{collect_lines, new_dns_stats_collector}
use srouter.DnsStats.Counts.{
  count, is_query_line, is_cached_line, is_forwarded_line, collect_lines-counts,
}
use srouter.Strings.{to_lower}
use srouter.Wol.{magic_packet, copies}
use srouter.Wol.Packet.{mac_text, magic_packet-validate_mac}
use srouter.Validate.{validate_mac, mac_re}
use srouter.Dashboard.{Site, set_limit, delete_limit}
use srouter.Dashboard.Limits.{Allowed, set_limit-Allowed}
use srouter.Tests.Worlds.{world_with}

abbrev three : Text
three = codes "03:00"

-- The loop finds no row, waits, a time is saved, and the loop reads it.
scheduled :
    Run false false
      (started none)
      (record (started (some three)) { phase = armed three; threads = [] ∷ [] })
unfolding schedule time_re
scheduled =
    then_step
      (then_step
        (then_step
          (then_step
            (then_step (then_step rest (read_none refl refl refl)) (request_schedule three refl))
            (saves [] [] three _ refl refl))
          (sends [] [] [] refl refl))
        (wake refl refl refl))
      (read_row three refl refl refl)

Run-Knows_example : Knows (some three) (armed three)
unfolding some_sending
Run-Knows_example =
    Run-Knows none (record (started (some three)) { phase = armed three; threads = [] ∷ [] })
      scheduled refl refl

cancel_schedule_misses_example :
    (s : Watch) × Run true false
      (record { row = some three; signal = false; phase = armed three; threads = [] })
      s
    × (s.row ≡ none)
    × (s.signal ≡ false)
    × (s.threads ≡ [] ∷ [])
    × (s.phase ≡ armed three)
    × Step true false s (record s { phase = fired })
cancel_schedule_misses_example = cancel_schedule_misses three

abbrev release : UpdateInfo
release = record {
  version = codes "v2";
  published_at = 0;
  release_notes = [];
  asset_url = codes "asset";
  checksum_url = codes "sum";
  html_url = [];
}

abbrev machine : Host
machine = record {
  files = λ p. none;
  temp = some (codes "/tmp/x");
  fetch = λ url. answered 200 (codes "elf") true;
  chmods = true;
  rereads = true;
  renames = true;
  starts = true;
  restarting = false;
}

abbrev checker : UpdateChecker
checker = record {
  dev_mode = false;
  status = record { checked = some 7; available = true; info = some release; error = none };
}

install_sound_example :
    Installs (λ c. c) (λ s. s) release machine (install (λ c. c) (λ s. s) checker machine)
unfolding text_eq
install_sound_example =
    install_sound (λ c. c) (λ s. s) checker release (codes "/tmp/x") machine refl refl refl refl

abbrev long_after : ℕ
long_after = 1000000000000

check-check_example :
    check machine.fetch
      (λ b. none)
      (codes "v1")
      (long_after + 1)
      (check (λ url. no_answer) (λ b. none) (codes "v1") long_after checker)
    ≡ check (λ url. no_answer) (λ b. none) (codes "v1") long_after checker
unfolding is_recent
check-check_example =
    check-check (λ url. no_answer) machine.fetch (λ b. none) (codes "v1") long_after
      (long_after + 1) checker refl refl (omega arith)

abbrev log : List Text
log =
    codes "dnsmasq: query[A] example.org from 10.0.0.2"
    ∷ codes "dnsmasq: cached example.org is 1.2.3.4"
    ∷ []

collect_lines-counts_example :
    ((collect_lines (λ c. c) log new_dns_stats_collector).queries
      ≡ count (λ c. c) (is_query_line (λ c. c)) log + count (λ c. c) (is_cached_line (λ c. c)) log)
    × ((collect_lines (λ c. c) log new_dns_stats_collector).cache_hits
        ≡ count (λ c. c) (is_cached_line (λ c. c)) log)
    × ((collect_lines (λ c. c) log new_dns_stats_collector).forwarded
        ≡ count (λ c. c) (is_forwarded_line (λ c. c)) log)
collect_lines-counts_example = collect_lines-counts (λ c. c) log (omega arith)

magic_packet-validate_mac_example :
    (bytes : List ℕ) × (packet : List ℕ) × (length bytes ≡ 6)
    × All (λ b. b < 256) bytes
    × (mac_text bytes ≡ to_lower (λ c. c) (codes "aa:bb:cc:00:11:22"))
    × (magic_packet (codes "aa:bb:cc:00:11:22") ≡ some packet)
    × (packet ≡ copies 6 (0xff ∷ []) ++ copies 16 bytes)
    × (length packet ≡ 102)
unfolding validate_mac mac_re
magic_packet-validate_mac_example = magic_packet-validate_mac (codes "aa:bb:cc:00:11:22") refl

abbrev tv : Text
tv = codes "11:22:33:44:55:66"

abbrev site : Site
site = record {
  labels = record { labels = []; answers = true };
  blocker = record { macs = []; answers = true; world = world_with [] [] };
  router = record { limits = []; answers = true; dev_mode = true; world = world_with [] [] };
  leases = [];
  arp = [];
}

set_limit-Allowed_example :
    Allowed
      (set_limit
        (λ s. none)
        (λ lt ds. ds)
        (λ ms. ms)
        (λ ls. [])
        tv
        (codes "50")
        site).0.router.limits
    × Allowed (delete_limit (λ s. none) (λ lt ds. ds) (λ ms. ms) (λ ls. []) tv site).0.router.limits
set_limit-Allowed_example =
    set_limit-Allowed (λ s. none) (λ lt ds. ds) (λ ms. ms) (λ ls. []) tv (codes "50") site tt
