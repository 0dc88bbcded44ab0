-- ===== src/Lib.antt =====
-- A verification library for the overlay network of this repository. A node keeps authenticated
-- sessions with hubs; each session carries records, in envelopes, over POST bodies, server-sent
-- events or websockets, and runs its streams on top.
--
-- Parts and files. Operations are functions that return the new state beside their answer; an error is
-- a value of the module's error type. A u64 or i64 is a number with its bounds and its wrap-around or
-- saturation written out; a byte is a number under 256.
--   Limits                  crates/wsnet-limits/src/lib.rs: the budgets that the other modules read.
--   Bytes                   big-endian numbers and slices, for the codecs.
--   Prelude.Text, Utf8,     a `str` as its UTF-8 bytes, the order of its bytes, and decimal numbers; what
--   Decimal, Sorting        the standard library does for the modules below.
--   PacketNo                crates/wsnet-crypto/src/packet_no.rs: `allocate`, `reserve_exact` and the
--                           getters. A turn of a compare-exchange loop is one function of what the
--                           caller holds and what memory holds; PacketNo/Schedule lets any number of
--                           callers take turns in any order. A call alone needs one turn
--                           (PacketNo/Calls).
--   Replay                  crates/wsnet-auth-store/src/replay.rs: `check_and_record` on the bitmap of
--                           1024 words. Replay/Window is the filter over the whole history, its
--                           specification.
--   Nonce                   crates/wsnet-auth-store/src/nonce.rs: `register`, `purge_expired`,
--                           `mark_storage_lost`, `snapshot` and `restore`.
--   Operation               crates/wsnet-operation/src/lib.rs: `begin`, `settle`, `query` and `tick`.
--   Transport.Post          crates/wsnet-transport/src/post.rs: `encode` and `decode`.
--   Transport.Sse           crates/wsnet-transport/src/sse.rs: `encode`, `decode` and the streaming decoder
--                           with `feed` and `finish`. Base64 is a parameter.
--   Protocol                crates/wsnet-protocol/src/kind.rs and record.rs: message kinds and the
--                           framing of a record. The metadata comes in through the record
--                           MetadataFormat, which Protocol.Record.Metadata fills with the codec below.
--   Protocol.Canon          crates/wsnet-protocol/src/canon.rs: building, reading and writing canonical
--                           JSON. Canon/Parser has the functions on bytes (`bump`, `skip_ws`,
--                           `parse_number`, `parse_string`, `parse_escape`), Canon/Values those that
--                           recurse (`parse_value`, `parse_array`, `parse_object`) and
--                           `from_bytes_bounded`. An object is a list of fields whose keys ascend.
--   Routing.Destination     crates/wsnet-routing/src/dest.rs: `is_slug`, `validate`, `to_canonical` and
--                           `from_canonical`.
--   Routing.Router          crates/wsnet-routing/src/router.rs: compiling the rules, `decide` and
--                           `validate_chain`. Addresses and networks are a parameter.
--   Routing.Acl             crates/wsnet-routing/src/acl.rs: compiling an access list and checking an
--                           access. Addresses and networks are a parameter.
--   Registry                crates/wsnet-registry/src/lib.rs: `register_ready`, `unregister`, `publish`,
--                           `withdraw`, `lookup` and `parse_target`; Registry/Listing has `list_visible`
--                           and `peer_list`, which ask the access list.
--   Session.Bind            crates/wsnet-session/src/bind.rs: `BindProofRegistry`, with `claim` and
--                           `prune`.
--   Socks.Wire              crates/wsnet-socks/src/wire.rs: `UdpHeader::parse`, `encode_udp_datagram`,
--                           `encode_target`; Wire/Reading has what is read from a socket (`read_target`,
--                           and `read` of a greeting, of credentials and of a request).
--   Stream.Reorder, Credit  crates/wsnet-stream/src/lib.rs: `ReorderBuffer` and `CreditAccount`.
--   Node.Health, Select     crates/wsnet-node/src/health.rs and select.rs: the health of a hub, the
--                           services that it advertises, and which hub is picked.
-- The hub registers each `Auth` in the nonce store and checks each opened envelope against the replay
-- window; the sealing side draws its numbers from the allocator; the session engine admits each `Open`
-- through the operation table and moves stream data through the reorder buffer and the credit account;
-- the hub resolves services in the registry and asks the access list for each access; the node probes
-- its hubs and selects among them.
--
-- Bounds and fuel. The loop of `decode` runs on the number of envelopes that may still come, which is
-- the code's own limit. The drain of the reorder buffer runs on the number of buffered blocks, of which
-- each round takes one. The clearing loop of the replay window runs on its distance. The recursion of
-- the canonical parser runs on `enough`, four units for each byte of the input and four more, since at
-- most four calls are made before a byte is read; the loop in a string runs on the bytes that are left.
-- No other loop needs fuel.
--
-- Not modelled: what third-party crates compute (hashes, MACs, the cipher), sockets, tasks and files,
-- the session engine with its handshake and messages, the header of a bind proof, the envelopes of
-- crates/wsnet-crypto, the token bucket of the connection guard, the control protocol, the loops of the
-- SOCKS server and of port forwarding, the static site, the configuration, and the programs in bins:
-- most of them are input and output around the parts above.
pub mod Prelude
pub mod Limits
pub mod Bytes
pub mod PacketNo
pub mod Replay
pub mod Nonce
pub mod Operation
pub mod Transport
pub mod Protocol
pub mod Session
pub mod Socks
pub mod Stream
pub mod Routing
pub mod Registry
pub mod Node
