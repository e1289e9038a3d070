-- ===== src/Lib.antt =====
-- A model of enimul, a local proxy that sends TLS ClientHellos past filters: as several TLS
-- records and TCP segments, and along routes, policies and name look-ups that its configuration
-- chooses.
--
-- The parts, by their files in the repository:
-- - internal/addrtrie: AddrTrie. AddrTrie.BitTrie has the nodes and the loops that `IPv4Trie` and
--   `IPv6Trie` share, AddrTrie.Ip the parsers of a pattern, `Insert` and `Find` of the two, and
--   AddrTrie.Domain the `DomainMatcher`. The trees are values: an insertion returns the new tree,
--   which is sound since no node is shared. A map of children is an association list, in which a
--   write replaces the value of an equal key.
-- - internal/core/fragment.go: Fragment has `findLastDotOrMidPos`, `makeRecord` and
--   `splitAndAppend`, Fragment.Chunks what `sendRecords` makes before it sends, and Fragment.Send
--   the sending.
-- - internal/core/oob_unix.go and waitack_linux.go: Wire, the connection. A computation takes the
--   connection with its log of events and returns it with a result, an error or a panic. What each
--   operation answers is an argument, so that a theorem is about every environment that it names.
--   The system calls are not modelled: an operation succeeds and is logged, or fails.
-- - internal/core/tunnel.go: ClientHello, `parseClientHello`; Tunnel, the session with its log of
--   events, Tunnel.Tls, `handleTLS`, and Tunnel.Entry, `handleTunnel` with `handleHTTP`.
-- - internal/core/socks5.go: Socks5, the handler of a connection up to the tunnel.
-- - internal/core/core.go: Pattern, `expandPattern`; Builder with Builder.Options, `NewBuilder` and
--   `Merge`, and the loop of main.go over the configurations.
-- - internal/core/ippool.go: Pool.Listing, `parseIPList`; Pool.Creation, `newIPPool`; Pool.Ranking,
--   `testIP`, `scan` and `updateBest`; Pool.Choice, `Get` and the manager.
-- - internal/core/desync.go: Desync, `parseTTLRules`, `genTTLCalcFunc`, the search of
--   `probeMinimumReachableTTL`, and `getFakeTTL`.
-- - internal/core/policy.go: Modes, the modes and their names; Policy with Policy.Checks,
--   `newPolicy`, and Policy.Merge, `mergePolicies`; Routing, the look-ups of `routeMatcher` with
--   `ipRedirect`, `transformIP` and `preMapIP`, and `genPolicy` in Routing.Evaluator.
-- - internal/core/dns.go: Modes, `DNSMode`; Dns, the choice among the records of the responses;
--   Dns.Exchange, the loop of `ExchangeWithConnContext`; Dns.Resolver, `doResolve` and `Resolve`.
-- - internal/dial/dst.go: Dst. internal/dial/option.go: Dial. internal/jsonx/types.go: Jsonx, and
--   orderedmap.go: Jsonx.OrderedMap. internal/errors/errors.go: Common.Result.
-- Outcome are results that may be panics, with what a computation ensures of its result in
-- Outcome.Ensures; Netip is what the source uses of net/netip; Common are the helpers.
--
-- How the parts meet: `Builder.merge` makes the policies of a configuration by `new_policy` and
-- stores them in the tries under what `expand_pattern` makes of their keys, which is what the
-- router reads; a connection's policy is the merge of those that the tries find for it, and a
-- destination may be the tag of a pool. `handle_tls` parses the ClientHello that the client sends
-- first, may route again by its name, and passes it on as the mode says: by `sendRecords`, which
-- cuts it at the name, or behind a fake packet with the TTL of `get_fake_ttl`. `socks5_handler` asks
-- `gen_policy` for the session that the tunnel starts with.
--
-- Parameters: the parsers of net/netip and net/http, what encoding/json makes of a value, the
-- answers of the connections and of dialing, the cache of the resolver and of the TTLs, the exchange
-- of DNS messages, and the weight of a pool's address, which the source computes in floating point.
-- In Routing the pools' manager and in Tunnel `sendRecords`, `getFakeTTL` and `desyncSend` are
-- parameters too. A theorem that assumes something of a parameter says so.
--
-- Numbers: bytes, ports and addresses are natural numbers; Go's `int` and durations are integers
-- without bounds, except where a conversion wraps (`int_of_uint`, the length in `make_record`).
-- Fuel: the loop of `parse_extensions` has the length of the data and one more; a round moves the
-- offset by at least 4. The reader of records in Fragment.Split has one more than the records.
-- `expand_pattern` has the length of the pattern and one more, and recurs on what is behind a group;
-- the loop over a network has the addresses that are left in its family; the search for a TTL has
-- the greatest TTL and one more, and each round leaves less between its bounds; the loop over TTL
-- rules has the length of the text and one more, and a rule takes at least three bytes.
--
-- Not modelled: logging, `Policy.Append` and the other formatting; sockets, goroutines and time
-- itself, so also the start of the scans, the timeouts, `dialParallel` and the copying of
-- `forwardTCP`; decoding of JSON; the system calls of `desyncSend`; the servers for HTTP and SNI around
-- `handleTunnel` and the loop that accepts SOCKS5 connections; the copies of other projects in
-- internal/freelru, internal/singleflight, internal/jsonx/jsonc.go and internal/errors/join.go.
pub mod Common
pub mod Netip
pub mod AddrTrie
pub mod Jsonx
pub mod Outcome
pub mod Wire
pub mod Fragment
pub mod ClientHello
pub mod Modes
pub mod Dst
pub mod Policy
pub mod Dns
pub mod Routing
pub mod Pattern
pub mod Dial
pub mod Builder
pub mod Pool
pub mod Desync
pub mod Tunnel
pub mod Socks5
