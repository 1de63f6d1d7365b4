-- ===== src/Lib.antt =====
-- BP Connect: the verification library of the routed mesh, of the Device-to-Device policy and of the
-- Controllers' replicated state.
--
-- The program. A Node of the routed mesh (internal/routed) reads IPv4 packets from its tunnel device
-- and from its peers. `HandleTunPacket` looks the destination up among the routes that the
-- Controller sent, chooses one of the end-to-end paths to the route's owner, wraps the packet in a
-- frame that names every hop, and gives it to the mesh. The mesh seals frames in data envelopes
-- that name both process incarnations and carry a sequence number. The receiving Node opens the
-- envelope, reads the frame, checks it against its own copy of the Controller's policy, and sends it
-- to the next hop or to its own tunnel device.
--
-- A Device-to-Device session (internal/p2p) has a packet policy at both ends, which sees each packet
-- before it is encrypted and after it is decrypted.
--
-- The Controllers (internal/controlplane) agree by Raft on a log of mutations. `Apply` puts each one
-- into the canonical state, a bucket of a bbolt file, in one transaction with the revision and the
-- index of applied entries, and then into files below the state root. It refuses a mutation whose
-- preconditions fail or that breaks the ownership of the routes.
--
-- The outer transport (internal/wgshim) carries WireGuard's packets sealed and padded, over the best
-- of several endpoints.
--
-- The files.
--   Base            what the parts share: results, lists over the native numbers, bytes and texts,
--                   bits of a machine word, IPv4 prefixes (`net/netip`), base64 and `TrimSpace`,
--                   the promises of `sort.Slice` (Base/Sort), float64 as an interface (Base/Float),
--                   a map as an association list (Base/Dict), `filepath.Clean`, hexadecimal.
--   Routed/Frame    internal/routed/frame.go: `ValidateBasic`, `MarshalFrame`, `UnmarshalFrame`.
--   Routed/Window   internal/routed/mesh.go: `acceptSequenceLocked`.
--   Routed/Session  internal/routed/session.go: epochs and data envelopes.
--   Routed/Config   internal/routed/config.go: the decoded configuration and its methods.
--   Routed/Transit  internal/routed/frame.go: `ParseIPv4Endpoints`, `ValidateFrameForNode`.
--   Routed/Selection  internal/routed/router.go: `pathScore`, `viablePath`, `choosePath`.
--   Routed/Router   internal/routed/router.go: the `Router`, its configuration, reverse paths and
--                   handlers; Routed/Router/Status is `SelectedPaths`.
--   Controlplane/RaftLog  internal/controlplane/store.go: the persisted form of a Raft log entry.
--   Controlplane/Bolt     bbolt's buckets as an interface; Bolt/Sorted is an instance.
--   Controlplane/Store    internal/controlplane/store.go: the buckets and what is read and written.
--   Controlplane/Command  internal/controlplane/fsm.go: `Mutation`, `NormalizeReplicatedPath` and the
--                   checks of `Apply` that read no state.
--   Controlplane/Ownership  internal/controlplane/fsm.go: `resultingPrefixRecords`,
--                   `validateRouteOwnershipInvariant`.
--   Controlplane/Machine  internal/controlplane/fsm.go: `Apply` and `projectOperations`;
--                   Controlplane/Machine/Snapshots: `ExportSnapshot`, `Restore`,
--                   `ReconcileProjection`, with the walk of the files as the parameter `scan`.
--   P2p/Policy      internal/p2p/policy.go: `Policy`, `Revoke`, `Allowed`, with `Session.active` of
--                   internal/p2p/grant.go.
--   Routed/Samples  meshes of two and of three Nodes for the tests.
--   Wgshim/Codec    internal/wgshim/codec.go: the sealed packets of the outer transport.
--   Wgshim/PathManager  internal/wgshim/path.go: `PathManager`; PathManager/Select has `Select`,
--                   `ConfirmTraffic`, `MarkSent`, `MigrationFallback` and `Snapshot`.
-- Below each of these stand the modules of its theorems, named for what they prove, and Tests, with
-- runs of the code and each theorem at a concrete input.
--
-- The state. A method with a pointer receiver is a function from the old state to the new one and
-- the result; a Go error is the `err` case of Base/Outcome with a constructor per message. Each
-- method is one step, run with no other method in between. For most the code holds a mutex from the
-- start to the end; `HandleTunPacket`, `HandleMeshData` and `SelectedPaths` take it once for the
-- configuration and again for the tables, and `Restore` releases it before `ReconcileProjection`, so
-- interleavings inside of these four are not covered. A string or a byte slice is a list of
-- numbers; where a theorem needs them below 256 it says so. uint64 counters wrap at 2 ^ 64, the
-- replay mask is shifted in 64 bits. A `time.Time` is its number of nanoseconds or `none` for the
-- zero time. Every loop of the source is structural recursion on the list or the count it runs over,
-- so no function of the source takes fuel here. `travel` (Routed/Router/Delivery) runs the Nodes of
-- a mesh one after the other and is bounded by a number of Nodes; the hops that a frame has left are
-- enough. Each Node there has its own router and links. `handle_all` (Routed/Router/Events) is a router
-- under a list of frames, packets and configurations, each with what its clock answers.
--
-- `print_u64` (Base/Decimal), which stands for `%d` of a uint64, takes 20 digits as its fuel.
--
-- Not modelled: files, sockets, JSON, goroutines, the sealing of the mesh's envelopes; the values that
-- come out of those are arguments. bbolt, which the repository does not hold, is the parameter `Bolt`,
-- with what it documents of Get, Put, Delete and cursors; a cursor that deletes shows every entry
-- once, and `db.Update` keeps nothing of a function that fails. AES-GCM is the parameter `Aead`. The
-- random bytes are a tape, so the loop of `randomPaddingLength` is recursion on the tape; a byte below
-- 128 ends it. JSON and SHA-256 are the parameter `Outside`; the files of the projection, which
-- `atomicProjectionWrite` and `os.Remove` change, are the parameter `Disk`. `sort.Slice` is the
-- parameter `Sorter`, the floats are the parameter `Float`; Base/InsertionSort is an instance of both.

pub mod Base
pub mod Controlplane
pub mod P2p
pub mod Routed
pub mod Wgshim
