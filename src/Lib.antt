-- ===== src/Lib.antt =====
-- srouter, the dashboard of an Alpine Linux router: the Go program that reads and rewrites the
-- configuration of dnsmasq, the firewall and traffic control, and guards it with a login.
--
-- The parts and their files. Handlers (internal/handler) check a request and call one operation of
-- internal/system; each operation reads a file, rewrites or extends it, and may run a command. The
-- readers of a file see only lines of their own kind, so the operations share dnsmasq.conf.
--   * Dns: internal/system/dns.go, upstream servers and local records in dnsmasq.conf.
--     GetUpstreamServers is get_upstream_servers, SetUpstreamServers is set_upstream_servers, and
--     so on for each function; Dns/Rows says how one line looks to each reader.
--   * Dhcp: internal/system/dhcp.go, leases, reservations and the address range, in the same file.
--   * Encrypted: internal/system/doh.go. Encrypted has the list that is stashed and strict-order,
--     Encrypted/Stamp the DNS stamp, Encrypted/Switch the switching on and off with the two
--     proxies' configuration files. The database row is a field of the state `Doh`.
--   * Firewall: internal/system/firewall.go. Firewall has script files and the kernel's rules,
--     Firewall/PortForward the port forwards, Firewall/Custom the custom rules.
--   * Bandwidth: internal/system/bandwidth_limits.go and validateBandwidthMbps of
--     internal/handler/validate.go, the table of limits and the script that applies them.
--   * Blocks: internal/system/device_blocks.go, the table of blocked devices and its script.
--   * Origin: internal/middleware/csrf.go, the check of the Origin header.
--   * Logs: internal/system/logs.go, the parsing of a line, the histories, and the broadcaster as a
--     step relation in Logs/Steps.
--   * RateLimit: internal/middleware/ratelimit.go. Session: internal/session/session.go,
--     internal/middleware/auth.go, and login and logout of internal/handler/auth.go.
--   * Validate: internal/handler/validate.go. Its regular expressions are recognisers; Validate/Rules
--     and Validate/Forwards say what an accepted rule is made of, for the operations.
--   * Handlers: internal/handler. PortForwards (portforward.go), FirewallRules (firewall.go),
--     DnsRecords (dns.go), Reservations (dhcp.go) and EncryptedDns (doh.go) compose a form, its
--     checks and the operations of the components above; an answer is a value of Reply.
--   * Dashboard: internal/handler/dashboard.go and internal/system/device_labels.go, over the tables
--     of Blocks and Bandwidth. Wol: wol.go of internal/system and internal/handler.
--   * Reboot: internal/system/reboot.go and the schedule's handlers of internal/handler/system.go, as
--     a step relation. Updater: internal/system/updater.go, its installation in Updater/Install.
--   * DnsStats: internal/system/dns_stats.go. Network: internal/system/network.go. Sampler:
--     internal/system/bandwidth.go. SystemInfo: sysinfo.go and memory.go of internal/system.
--   * Strings, Numbers, Sort and Maps: what the program uses of Go's packages strings, bufio,
--     strconv and sort, and of Go's maps. World: files and commands. Base: shared helpers.
--   * Tests: each theorem of the results at a concrete input, and runs of the definitions.
--
-- How the code is modelled. A Go string is its list of code points, in valid UTF-8; the scanner's
-- buffer of 65536 bytes counts bytes, and a line that does not fit ends the scan without an error,
-- as in the source, which does not ask the scanner for one. Times are Unix seconds. An operation
-- with effects maps a world to a world and a result. In the world a path is absent or has a content,
-- and may not be readable or writable; whether a command succeeds is a function of the commands
-- before it. A write is all or nothing, and commands leave the files as they are. Log messages and
-- the texts of errors are left out, an error is known by its kind. A table of the database is a
-- list, with a flag that says whether the database answers; uniqueness of a key is kept by the
-- insertions. Upper and lower case beyond ASCII, PAM, the parsing of URLs and of host and port are
-- parameters. Where Go ranges over a map, the order is a parameter.
--
-- Loops are recursion on the list they read. The printing of a number has the number plus one as
-- its fuel, which is enough, as each round divides by ten.
--
-- What HTTP answers, the decoding of JSON, SHA-256, net.ParseIP and net.ParseCIDR are parameters too.
-- The scheduled reboot counts a day as 24 hours, and leaves out changes of the clock.
--
-- Not modelled: the processor, disks, PPPoE and the speed test, which read files or run a program
-- and pass on what it prints; the regular expression of netfilter's log lines; the rates and
-- percentages, which are floats. Rendering, event streams, the wiring of the program, the forwarding
-- providers and the mocks are input and output only.
pub mod Bandwidth
pub mod Base
pub mod Blocks
pub mod Dashboard
pub mod Dhcp
pub mod Dns
pub mod DnsStats
pub mod Encrypted
pub mod Firewall
pub mod Handlers
pub mod Logs
pub mod Maps
pub mod Network
pub mod Numbers
pub mod Origin
pub mod RateLimit
pub mod Reboot
pub mod Sampler
pub mod Session
pub mod Sort
pub mod Strings
pub mod SystemInfo
pub mod Tests
pub mod Updater
pub mod Validate
pub mod Wol
pub mod World
