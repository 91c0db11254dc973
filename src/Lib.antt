-- ===== src/Lib.antt =====
-- LWRT: one static binary that is the userspace of a router. `src/main.rs` dispatches to applets; each is
-- a file of `src/`, and the applets share a configuration file, a netlink builder and a digest.
--
-- - `Base`: lists, bytes and maps measured by native numbers, Boolean tests. `Text`: what the program
--   uses of Rust's text functions (split, trim, parse, UTF-8, printing).
-- - `Netlink` is `src/nl.rs`: the buffer `NlBuf` with its attributes, nested scopes and messages, and
--   the walker `for_each_attr`. A method `b.attr(..)` is a function `attr ..` from buffer to buffer, and
--   `⨟` joins statements. `Netlink/Encoding` says what a statement appends, `Netlink/Attributes` and
--   `Netlink/Messages` what is read back.
-- - `Firewall` is `src/fw.rs`: `build_ruleset` and every function that it calls, under their own names;
--   `Firewall/Forwards` is the parsing of port forwards. `Firewall/Ruleset` is the ruleset as data, which
--   the bytes refine; `Firewall/Counting` is the message count of the tests.
-- - `Sha256` is `src/sha256.rs`: the state `Sha256` with `update`, `finish`, `digest` and `hex`;
--   `Sha256/Compress` the block function, `Sha256/Padding` the digest of a message in one piece.
-- - `Dhcp` is `src/dhcp.rs`: `options`, `parse`, `parse_ack`, `build_reply`, `build_client`;
--   `Dhcp/Pool` is `Pool` with `lease_for` and `assign`, `Dhcp/Server` the body of the server's loop, a
--   step from the pool and a datagram to a pool and what is sent and written.
-- - `Config` is `src/config.rs`: `parse` line by line, `get` (here `get_value`) and `get_or`;
--   `Config/Lines` is a file as data, `Config/Files` what each of its lines does, and `Config/Values` the
--   values that `get` finds then.
-- - `Httpd` is the part of `src/httpd.rs` that decides who may do what: `Sessions`, `cookie_token`,
--   `verify_password`, `is_authed`, `csrf_ok`, `login` and `route`; `Httpd/Lifetime` is about the sessions
--   over time, `Httpd/Escaping` is `hesc`. A response is
--   what it is made of (`Outcome`), not its HTML; the password field of a form is an argument.
-- - `Util` is `b64_decode` of `src/util.rs`; `Util/Base64` the encoder that it is held against.
-- - `Mtd` is `src/mtd.rs`: `erase_range`, `write`, `erase` and `verify` over the calls that they make of an
--   open partition, which are a parameter (`Device`); `IsFlash` is what a flash is documented to do.
--   `Mtd/Naming` is `resolve`, with the content of /proc/mtd as an argument, and the ioctl numbers;
--   `Mtd/Table` is that content as data.
-- - `Json` is `src/json.rs`: `Value`, the accessors and the writer; `Json/Parser` the parser, with the
--   rest of the input in the place of the position; `Json/RoundTrip` reads back what is written.
-- - `Ubus` is `src/ubus.rs`: the state `Bus` and the answers of the `system` object; `Ubus/Broker` is
--   `handle_request` branch by branch and the life of a connection, a step from a bus and an event to a
--   bus and the frames that are sent.
-- - `Ipkg` is `src/ipkg.rs`: `find_entry`, `sanitize` and the fields of a header; `Ipkg/Archive` is
--   `extract_ustar`, `install` and `remove`, with what they do to the file system as a list of effects.
-- - `Log` is `src/log.rs`: `append` with its rotation and the two ways in.
-- - `Sysupgrade` is `src/sysupgrade.rs`: `parse`, `validate` and `run`, with `Mtd/Naming` for the partition.
-- - `Init` is `src/init.rs`: `bring_up_network` and `run` (here `boot`) as lists of effects, and `supervise`
--   over the process ids that the kernel gives; `Init/Supervision` counts the processes of a service.
-- - `Wg` is `src/wg.rs`: the messages of `ensure_link`, `genl_family_id` and `set_device`; `Wg/Encoding` is
--   what the loop appends, `Wg/Device` the device's peers as data, `Wg/Texts` and `Wg/Sections` how they are
--   read, `Wg/Setup` is `up`.
-- - `Dns` is `src/dns.rs`: `read_name`, `local_answer`, `lookup_lease` and a round of the loop of `run`, a
--   step from a query and the cache to a reply and the cache; `Dns/Answers` says where a reply comes from,
--   `Dns/Names` holds `read_name` against an encoder, `Dns/Leases` the search of the leases against a file
--   as data, `Dns/Replies` is what `local_answer` replies.
-- - `Ntp` is `src/ntp.rs`: the time in a reply and the servers in order; `Ntp/Time` is an encoder of it.
-- - `Dispatch` is `main` of `src/main.rs`: which applet a command line runs; `Dispatch/Symlinks` is about
--   links to the binary.
--
-- Bytes and words are native numbers with their wrap-around written out. Loops are recursion on fuel:
-- the walkers take the buffer's length, since each round consumes a byte or more, and give none where
-- rounds are left and no fuel; the padding loop of the digest takes 64 rounds and needs at most 63; the
-- erase loop takes the end of the range, since each round erases a byte or more; `decimal` takes 20, the
-- digits of a `u64`; the labels of a name take the buffer's length; the JSON parser takes twice the
-- input's length, since a value and an element consume a byte between them; the extraction takes the
-- archive's length, and where `usize` wraps no fuel is enough, which its theorem does not need; the suffix
-- of a host name is taken off as often as the name has characters.
--
-- Sockets, files, ioctl and the clock are not modelled, since they are system calls; a step of the DHCP
-- server takes the time as an argument and gives the datagrams and the file it writes as values. `f64`,
-- `from_utf8_lossy` and `Path::parent` are parameters, since they are the standard library's. The
-- DHCP client's loop, the command line clients of the bus, the HTTP exchange of `ipkg`, the mounts and
-- `exec` of `init`, the applet `ifup`, and `src/net.rs` and `src/sys.rs`, which are calls of the kernel,
-- are outside this library.
pub mod Base
pub mod Netlink
pub mod Text
pub mod Firewall
pub mod Sha256
pub mod Dhcp
pub mod Dispatch
pub mod Dns
pub mod Util
pub mod Mtd
pub mod Ntp
pub mod Config
pub mod Httpd
pub mod Json
pub mod Ubus
pub mod Ipkg
pub mod Log
pub mod Sysupgrade
pub mod Init
pub mod Wg
