-- ===== src/Lib.antt =====
-- A verification library for adbq, a desktop front end of adb: a Go program whose package
-- internal/adb speaks to Android devices through the adb client and the adb server, and whose files in
-- the root (app.go, logcat_feed.go and their neighbours) join it to the user interface.
--
-- The parts, and how they interact. A `Client` runs one adb process per question; a command that needs
-- root is wrapped for the `su` that the device has (Root). What the client learns of a device is kept
-- in the fact map (FactStore), from which a resolver of several strategies answers, and from which a
-- change of the device drops a domain of facts. The packet filter of a device is changed by commands
-- with a snapshot for undo (Iptables), its hosts file by the first of several writes that sticks
-- (Hosts). A profile bundles such changes and is applied to a device step by step (Profiles). What
-- would be run is shown to the user as text (CommandText). Streams come back: the log of a device, read
-- line by line (LogLines) and batched for the interface (LogcatFeed), the samples of its processes
-- (Processes), the gauges of its battery, memory and load (Statistics), and the device list that the adb server pushes (Track, Devices) and a watcher passes on
-- (Watcher). A capture keeps its last packets in a ring (PacketRing), a shell session its last bytes in
-- a log (Scrollback). Long-running operations are tasks (Tasks), and each adb process is counted
-- (Metrics). Port forwards and the state of the network are read from listings (Forwards, Network).
--
-- Which file models what. A function keeps the name of the Go function in snake case; a method of
-- `*Client` takes the part of the client's state that it reads and gives it back changed.
--   * Prelude (Tests, Lists, Texts, Int), Decimal, Strings, Dict: Boolean tests, lists and byte strings,
--     integers; `itoa` of internal/adb/tasks.go and the parsers of strconv; what the parsers use of
--     Go's strings package; a map with text keys.
--   * PacketRing: internal/adb/packetring.go, with the packet record of internal/adb/pcap_live.go.
--   * CommandText: internal/adb/command_text.go and `shQuote` of internal/adb/system.go;
--     CommandText/Shell is a reader of POSIX shell words, written from the shell's quoting rules.
--   * FactStore: the cache of internal/adb/strategy.go, the capability cache of
--     internal/adb/capabilities.go, and what is remembered of root;
--     FactStore/Domains is internal/adb/cachedomain.go and FactStore/Resolver is `Resolver` and
--     `cachedRead`.
--   * Iptables: internal/adb/iptables.go and internal/adb/iptables_commands.go; Iptables/Actions are
--     the handlers, Iptables/Probe looks for the binary, Iptables/Parse parses the listings and
--     Iptables/Preview is what the interface shows.
--   * LogcatFeed: logcat_feed.go, with `ProcOwner` of internal/adb/logcat_procs.go; the events of one
--     feed are steps, and an interleaving of its goroutines is a list of events.
--     LogcatFeed/Recovery is its reconnecting, with `IsTransientStreamEnd` of internal/adb/logcat.go.
--   * LogLines: the reading of log lines in internal/adb/logcat.go and of process tables in
--     internal/adb/logcat_procs.go, with helpers of internal/adb/strutil.go.
--   * Devices, Track and Watcher: `Device` and `ParseDeviceList` of internal/adb/devices.go,
--     internal/adb/track.go and device_watcher.go. The watcher's lists are slices of a heap, since it
--     fills them in place.
--   * Root: the probe of `su`, the wrapping and the running of root commands in internal/adb/adb.go, and
--     internal/adb/adb_root.go.
--   * Profiles: internal/adb/profiles.go (Profiles), and profiles_app.go: Profiles/Steps and
--     Profiles/Frida are the steps, Profiles/Apply is `ApplyProfile` with `touch` of app_invalidate.go,
--     Profiles/Preview is `PreviewProfile` with `ProxyCommand` of internal/adb/network.go;
--     Profiles/Device is what they ask of a device.
--   * Hosts: internal/adb/hosts.go. Processes: internal/adb/procs.go; Processes/Top is the sampling.
--   * Statistics: internal/adb/stats.go, with `Stats` of internal/adb/screenshot.go: Statistics/Slow
--     and Statistics/Snapshot are the parsers and Statistics/Reading is `GetStats`. Statistics/Scan is
--     the scan of a device's capabilities in internal/adb/capabilities.go.
--   * Scrollback: internal/adb/scrollback.go with `sanitize` of internal/adb/config.go.
--   * Network: the lookup of a name (Network/Lookup), the gateway (Network/Gateway), the proxy and the
--     host's addresses in internal/adb/network.go.
--   * Forwards: internal/adb/forwards.go. Tasks: internal/adb/tasks.go. Metrics: internal/adb/metrics.go.
--
-- Numbers and texts. A Go string is its list of bytes. A non-negative int, a counter and a time in
-- nanoseconds are natural numbers; the numerals are bounded to int64 and uint64 where they are
-- printed and parsed. The packet ring keeps the uint64 of its packet numbers as a number. The sums of
-- Processes and Statistics wrap as int64 does (Processes/Int64), and a percentage, a float64 in the
-- code, is the fraction that it is the value of. Any other float64 is a value of a type with the
-- operations that the code has for it (`Floats` of Statistics).
--
-- Fuel. The digits of a number are written into a buffer of twenty bytes, which
-- is what the longest int64 takes. The frames of a connection are read with its length as fuel,
-- and a frame takes four bytes or more. Everything else recurses on its input.
--
-- Code outside the repository is a parameter. A device is a state `D` with a record of what adb does
-- with it (Iptables/Actions), or a run that belongs to a strategy (FactStore/Resolver), or a record
-- of the stream's operations (LogcatFeed/Recovery). A clock reading is an argument, and so are the
-- hash of a hosts file and, for the actions of Iptables, the answer of `ProbeIptables`, whose commands
-- are those of Iptables/Probe. What the writes of a file come to is an argument too (Profiles, Scrollback). A
-- parameter as well is what other parts of internal/adb compute: the scan of the device's capabilities
-- where Root and FactStore/Resolver ask for it, the enrichment of a device, and the Frida and
-- certificate operations that a profile calls.
--
-- Not modelled: the processes, sockets and locks themselves, so a step is atomic where the code
-- holds a lock or is one case of a select; tickers and cancellation but for the points at which they
-- show; the throttle of the log feed's refreshes and its stop; the elapsed time of the metrics; two
-- writers of one scrollback log at once; the capture of a profile from a device; the parsers of the
-- interface listings; and the parts that have no file above (among them apps, files, certificates,
-- Frida, emulators, the SDK, the decoding of packets, and the interface's bindings in app.go).
pub mod Prelude
pub mod Decimal
pub mod Strings
pub mod Dict
pub mod PacketRing
pub mod CommandText
pub mod FactStore
pub mod Iptables
pub mod LogcatFeed
pub mod Devices
pub mod Track
pub mod Metrics
pub mod Root
pub mod Profiles
pub mod LogLines
pub mod Processes
pub mod Hosts
pub mod Scrollback
pub mod Watcher
pub mod Network
pub mod Statistics
pub mod Tasks
pub mod Forwards
