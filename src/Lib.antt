-- ===== src/Lib.antt =====
-- BoundGate is an overlay VPN. A node takes packets from its TUN device and from its peers' tunnels,
-- reads their headers, asks the connection table whether they may pass, and forwards them to the
-- tunnel of their destination. This library models the part of that path which decides:
--
--   Prelude: tests, lists, byte strings, association lists for Go's maps, and `Run`, a computation
--     that returns or panics; an index out of range is a panic.
--   Netip: what the source uses of net/netip (addresses without zones, prefixes, and in Kinds the
--     tests for private, loopback and global addresses).
--   Netparse (internal/netparse): Header is netparse.go (Parse, ParseQuoted), Dns is dns.go, Tls is
--     tls.go, Reset is tcp.go. Their children prove bounds, round trips and stability.
--   Registry (internal/registry): the module itself is registry.go up to the Holder that admits a
--     peer's key while the snapshot is fresh; Changes has sameNode, samePolicyAttrs and diff,
--     Validate has Snapshot.Validate, and Valid and Unique what it guarantees. Entries is
--     listentry.go: the address entries of dynamic lists.
--   Acl (internal/acl/acl.go): Word and Entities have the entities that policies see, Lists
--     compileList, has and hasName, Base buildEntities, Engine New with its loops over policies,
--     Evaluate Owner, sniFallback, evaluate and Evaluate. Owners, Overlay, Names, Principals,
--     Attributes, ServerNames and Decisions hold the theorems.
--   Binding (internal/binding): Sshsig is sshsig.go (reading and verifying a signature), Signers is
--     signerset.go, the chain of admin key lists, and Chain says what an accepted chain has been
--     signed by. Statements are the bindings and revocations of binding.go and revocation.go, Nodes
--     has Verify, verifyNode, VerifyRevocation and VerifySnapshot, and Trusted says what is known of
--     the peers that are kept; Sets and Agrees are its lemmas on Matches and the guard.
--   Anchors (internal/anchors/anchors.go): the book of each node's newest binding and revocation;
--     Revoked holds its theorem.
--   Sandbox (internal/sandbox/filter.go): the seccomp filter that assemble writes. Machine is the
--     kernel's interpreter, Policy says what each call gets, and Blocks and Agreement show that the
--     program answers so.
--   Flow (internal/node/flow/flow.go): State has the table, its entries and its constants; Inspect
--     has decide, count, inspect and inspectTCP; Dns has dnsPacket; Handle has Handle, handle,
--     fragment, probe and relatedLocked; Sweep has Expire, CloseWhere, Reevaluate and timeout. Settle
--     and Totals are lemmas, Account the invariant of the table, Account/Reach its runs; Purge,
--     Verdict, Questions, Keys and Fragments (runs with the fragmented packets that began in them)
--     hold the other theorems.
--   Forward (internal/node/forward/table.go): Attach, Detach, AttachPrefix, DetachPrefix,
--     SetReserved and Lookup, over any type of writers that can be compared.
--   Dnsmap (internal/node/dnsmap/dnsmap.go): New, Learn, Names and Expire.
--   Encap (internal/mux/encap.go): putEncap, getEncap and the datagram of WriteTo.
--   Tests: concrete inputs at which the theorems apply.
--
-- Parameters stand for code outside the repository: the Cedar engine, a regular expression and the
-- texts of addresses (Acl.Engine's Library, Registry.Entries's Texts), SSH keys, hashes and JSON
-- (Binding's Crypto and Statements's Codec), and the kernel's interpreter of a filter
-- (Sandbox.Machine), for which the laws of its instructions are the only hypotheses.
--
-- A snapshot reaches the registry through VerifySnapshot, whose guard is the book of Anchors.
-- Acl reads the registry's snapshot: Owner and the principal are looked up in it, and a snapshot
-- that passes Validate makes these lookups unambiguous. diff decides by sameNode and samePolicyAttrs
-- which changes of a node the policies must hear of.
--
-- The connection table calls Netparse for names and answers, gets its verdicts from a Decider (the
-- policies, a parameter: any function of the entry, or none) and reports to an event callback and
-- to a Learner (the learned names), whose calls the model records in lists.
--
-- Numbers are natural numbers. Where Go's integers wrap (sequence numbers, counters, checksums,
-- the nanoseconds of MaxAge) the remainder is written out; other durations and times are taken not
-- to wrap. Times are nanoseconds from a fixed origin and do not run backwards past it: the
-- difference of an earlier and a later time is 0. Entries of the connection table are shared by
-- its two maps, so they are references into a heap. Each operation is one step, as the mutexes
-- make it, with one exception: Table.Handle takes the table's lock twice, for the packet and then
-- for the entry of a first fragment, and the model makes one step of both. Go's order of walking a
-- map is not fixed, and the model walks its list. Callbacks are taken not to call back into the
-- table.
--
-- Loops over messages run on fuel: the length of the message, or of the list that is walked, which
-- each turn makes shorter. Running out would show as a panic, and the readers are proved not to.
-- The walk of genesisOf takes one turn more than the chain has links, as in the source.
--
-- Not modelled: sockets, the TUN device, tunnels and their handshakes, the control plane, keys and
-- certificates, the user interface; of the modelled files, the parts that only copy or print
-- (Snapshot of the table, Len, Overflow, the texts of errors). The random ID of a flow is an
-- argument, and so is the time of a decision: a request's Now is taken to be set. Of the bindings,
-- the signing side and the reading of key files are left out, and the files behind a node's book.
pub mod Acl
pub mod Anchors
pub mod Binding
pub mod Dnsmap
pub mod Encap
pub mod Flow
pub mod Forward
pub mod Netip
pub mod Netparse
pub mod Prelude
pub mod Registry
pub mod Sandbox
pub mod Tests
