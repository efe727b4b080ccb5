-- ===== src/Lib.antt =====
-- EoIP-rs: a daemon that carries Ethernet frames in EoIP (GRE, over IPv4) and EoIPv6 (EtherIP) packets.
--
-- Proto models crates/eoip-proto: Proto/Gre is gre.rs, Proto/Etherip etherip.rs, Proto/UdpShim
-- udp_shim.rs, Proto/Pipeline the parsers of lib.rs, Proto/Types and Proto/TunnelId types.rs, and
-- Proto/Error error.rs. A byte is a number below 256, a buffer a list of them; a call that writes
-- through a `&mut [u8]` returns the buffer it leaves. Base has what the modules share: results with
-- an outcome for a panic, slices that panic out of range, machine words with their wrap-around.
--
-- Packet models crates/eoip-rs/src/packet: Buffer and Pool are buffer.rs, Rx is what rx.rs does with
-- one received packet, Tx is tx.rs from the frame that the TAP device gives to the calls of sendmmsg.
-- A frame read goes into the payload area of a buffer, which is taken from the pool or, where the pool
-- is empty, made, the header is written into the
-- headroom in front of it, and Tx/Batcher takes a run of the batcher task as the list of the answers
-- of its two selects, and Tx/Reader the loop that reads a device. A packet received is decoded, its
-- tunnel found in the registry by id and peer, and its frame copied to a buffer for the tunnel's
-- writer.
--
-- Tunnel models crates/eoip-rs/src/tunnel: Lifecycle is the atomic state, with the calls of all
-- threads as steps; Handle the record that the tasks of a tunnel share, in a store by pointer; and
-- Registry the map of the tunnels. Keepalive is keepalive.rs, with the loop of its task in
-- Keepalive/Task. Net models net/mtu.rs and net/pmtud.rs, and Config is config.rs after the file has
-- been read.
--
-- Tunnel/Manager is tunnel/manager.rs: a call of `create_tunnel` or `destroy_tunnel` is one step on the
-- registry, the handles, the messages of the helper's socket, the tasks and IPsec, and a creation
-- that waits for the helper gives no result. Tunnel/Manager/Concurrent cuts a creation into its steps,
-- for two of them at once. Helper is the loop of crates/eoip-helper/src/main.rs at the other end of
-- that socket, Helper/Rawsock the filter of the AF_PACKET socket of rawsock.rs,
-- Helper/Mss the rule of mss.rs, Proto/Wire the messages. Ipsec is ipsec/mod.rs and ipsec/config.rs
-- with the calls of strongSwan kept in a list, Ipsec/Manager/Monitor a check of ipsec/monitor.rs,
-- Ipsec/Vici what ipsec/vici.rs reads in a message, and Service the requests of api/tunnel_svc.rs
-- and api/stats_svc.rs.
--
-- Packet/Rx/Loops has the receive loops of rx.rs, over what the system calls answered turn by turn,
-- and the threads of `start_rx_pipeline`; Packet/Mmap is the walk through a block of the shared ring
-- of packet_mmap.rs. Daemon is main.rs: Daemon/Startup the two loops over the tunnels of the
-- configuration, beside the messages of the helper, and Daemon/Run the whole of `run` up to its wait.
-- Daemon/Windows is bin/eoip-rs-win.rs, the daemon for one tunnel over the drivers of Windows.
--
-- Cli models the parser of crates/eoip-cli/src/parse.rs: Cli/Words the operations on strings of the
-- standard library, Cli/Tokens the splitting of a line, Cli/Parse the commands; and Cli/Commands the
-- requests of commands.rs, made to the functions of Service.
--
-- Analyzer models crates/eoip-analyzer: ethernet.rs, ip.rs, deviation.rs, decode.rs, stats.rs, in
-- PcapReader pcap_reader.rs and, in Session, the loop of main.rs without its output.
--
-- Packages are parameters with their documented behaviour as laws: the lock-free queue of the pool
-- (Packet/Pool), the bounded channel (Packet/Rx) and the concurrent map (Tunnel/Registry), which hold
-- for concrete lists in Tests/Models; so are the kernel's packet filter (Helper/Rawsock), with the
-- machine of Tests/Machine, and iptables (Helper/Mss). The readers of capture files (Analyzer/PcapReader)
-- are functions with no laws. Answers of the system, the clock and sockets are arguments.
--
-- Two loops run on fuel. The search of path MTU discovery halves its range in each round; the range has
-- 925 sizes at the start, so ten rounds are enough for every network. The loop over a capture file
-- (`collect`) takes at least one block of the file in each round, so a round more than the file has
-- blocks is enough.
--
-- Left out are sockets, devices, timers, signals and the runtime, the set-up of the ring, the thread
-- that writes to a device, serialization, the text of logs and outputs, calls of the manager at once
-- other than two creations, the health service and the stream of events.
pub mod Base
pub mod Proto
pub mod Tunnel
pub mod Packet
pub mod Net
pub mod Config
pub mod Keepalive
pub mod Helper
pub mod Ipsec
pub mod Analyzer
pub mod Service
pub mod Cli
pub mod Daemon
pub mod Tests
