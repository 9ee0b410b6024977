-- ===== src/Lib.antt =====
-- Vantage: models of the primary of a Byzantine fault tolerant replication system, and theorems
-- about them.
--
-- The program. Each primary runs an agreement engine (primary/src/vantage/agb.rs). A view has one
-- designated proposer; every party answers its proposal with one echo-stage statement (grade 1,
-- grade 0 or skip) and one ready-stage statement (grade 1, 0, mix or no-ready). By the tallies of
-- these statements the engine completes, directs and seals the view. The engine returns effects that
-- the node executes. It takes its thresholds from the committee (config/src/lib.rs and
-- primary/src/vantage/threshold.rs) and the proposer of a view from the leader schedule
-- (primary/src/leader.rs). Echoes carry positional availability claims (primary/src/vantage/claim.rs).
-- The pacemaker (primary/src/vantage/pacemaker.rs) turns the wishes of the parties into entered
-- views. When a view may not seal, the parties agree on its outcome by the resolver
-- (primary/src/vantage/direct_resolution.rs): for each target view they enter resolver views by wishes,
-- the primary of a resolver view proposes an entry, and quorums of echoes, keys, locks and DONEs
-- decide it. The outbox (primary/src/vantage/outbox.rs) keeps own broadcasts for replay. A primary
-- records the outcome and the output of each view in a chain of hashed records and announces heads at
-- checkpoints; one that lags behind downloads the views up to a certified head, record by record, and
-- checks each against the chain (primary/src/vantage/sequence.rs).
--
-- The files.
--   Base, Base/Tests, Base/Lists, Base/Map, Base/BTree: Boolean tests, machine widths, lists, and
--     maps. A HashMap is a list in order of insertion, a BTreeMap an ascending list.
--   Threshold: Thresholds::from_party_count.
--   Committee: stakes and stake thresholds; Committee/Census sums the stake of the authorities whose
--     entry in a map passes a test.
--   Leader: RoundRobin and SemiParallelRRLeaderElector; Leader/Schedule, the leader of a slot and view.
--   Claim: AvailClaim and its validation.
--   Pacemaker: the pacemaker; Pacemaker/Order, its k-th largest wish; Pacemaker/Entry, its runs.
--   Outbox: the outbox; Outbox/Bounds and Outbox/Replay, its records and its slices.
--   Agb/Types, Agb/Formed, Agb/State: proposals, statements, well-formed proposals, the state of a
--     view and of the engine.
--   Agb/Statements, Agb/Steps, Agb/Votes: the changes of one view's state: counting a statement;
--     ready candidates, completion, direct outcomes, seals and locks; metadata status and stances.
--   Agb/Monad: the engine's methods as actions on its state and the effects emitted so far.
--   Agb/Rechecks, Agb/Meta, Agb/Handlers, Agb/Receive: the methods, in the order of their calls.
--     Every pub method of AgbEngine that changes state and is called by the node is one event of
--     Agb/Engine, where run handles a list of events.
--   Agb/Respects, Agb/Laws, Agb/Evolution: a preorder that every change of one view's state
--     respects is respected by every run.
--   Agb/Tallies, Agb/Irrevocable, Agb/Quorums: the invariants of runs.
--   Resolve/Types, Resolve/State: messages, effects, and the state of the resolver.
--   Resolve/Counts, Resolve/Candidates, Resolve/Schedule, Resolve/Steps, Resolve/Views: winners, backing, keys and
--     locks; the rotation of candidates; the schedule of primaries; the changes of one
--     target and of one of its resolver views.
--   Resolve/Monad: the resolver's methods as actions on its state and the effects emitted so far.
--   Resolve/Values, Resolve/Phases, Resolve/Replay, Resolve/Propose, Resolve/Wishes, Resolve/Targets,
--     Resolve/Evidence, Resolve/Handlers: the methods of DirectResolver. Each pub method that changes
--     state is one event of Resolve/Engine, where run handles a list of events.
--   Resolve/Sound: the resolver's invariant, and the rules by which every handler keeps it and any
--     preorder that every change of one target respects; Resolve/Lasting: what lasts of a target;
--     Resolve/Winners: the winner of a count; Resolve/Fair: the turns of a
--     schedule; Resolve/Rotation: the choice of a candidate.
--   Sequence/Hash, Sequence/Store, Sequence/Collector, Sequence/Chain, Sequence/Transfer,
--     Sequence/Handlers, Sequence/Wants: records and their hashes; SequenceStore;
--     CheckpointCollector; ChainVerifier and DeltaVerifier; SequenceTransfer, its scans and sources; its messages; its wants and its runs.
--   Sequence/Links, Sequence/Absorb, Sequence/Deltas, Sequence/Linked, Sequence/Scan: chains and
--     collisions; the two verifiers; the store; the scans of a transfer. Sequence/Sound,
--     Sequence/Steps, Sequence/Bodies, Sequence/Entries, Sequence/Runs: what a transfer holds after
--     each of its messages. Sequence/Parts, Sequence/Faithful, Sequence/Served: a
--     transfer or a verifier and a store. Sequence/Costs, Sequence/Errors: the errors of a run.
--     Sequence/Heads, Sequence/Evictions, Sequence/Retracted, Sequence/Counted, Sequence/Judged: what
--     an announcement does to the collector.
--   Samples, Tests, ReplayTests, ResolveTests, SequenceTests: a run of four authorities, tests, and the theorems at concrete inputs.
--
-- Correspondence. Views, public keys and digests are numbers. A stake is a u32 and wraps where the
-- release build wraps; party counters are usize and are bounded by the committee. The fields that
-- AgbEngine::new sets once are Config, and those that handlers write are AgbEngine. A method that returns
-- effects appends them to the output of the world at the place where the source extends its vector. A
-- call rep.authorize(r) is recorded at its place, and the effects that the repairer returns there are
-- the repairer's. The four tests that the engine asks of LaneManager are a parameter of each event
-- (LaneView); the domain hash of a proposal is a parameter of Config. The reason and route
-- strings, the metrics, the logs and the instants read for them are left out. A view below
-- min_live_view is pruned, and theorems on a view hold while it is not. A panic is none of
-- an Option where no comment at the definition says otherwise.
--
-- The clock that a handler of the resolver reads is part of its event and is read once. The domain hash
-- of an entry, the encoding of manifests and the seed of a schedule are parameters of the resolver's
-- Config. A call of expect that finds nothing is the output panic. Loops recur on their lists, and the
-- entry loops on the number of views they enter. Only advance_view of the resolver runs on fuel, since
-- a round of its loop may call it again: each repetition follows a statement or DONE sent by the round
-- before, of which a view has at most six; the tests run with 8, and the theorems hold for every fuel.
--
-- The hash of sequence.rs, the session identifier and the bincode encodings are the parameter Hashing,
-- of which nothing is assumed: where equal digests should mean equal inputs, a theorem gives the equal
-- inputs or two different ones with one digest (Collision). First claims, whose key is a view and a
-- sender, are kept by view and then by sender; the retained headers are a map of their own. The
-- cells of a transfer that its scans move are fields that the scans return. The message of a request
-- is not modelled, since a transfer never reads one. A view plus one is written without a width: the
-- release build wraps at 2^64 views.
--
-- Not modelled: the statement buffer DigestStatements and the counts by manifest of agb.rs, lanes,
-- repair, resolution evidence, the output pipeline, installation, the node's runtime, and the other protocols of the
-- primary; workers, network, storage, cryptography, metrics and command lines.
pub mod Base
pub mod Samples
pub mod Tests
pub mod ReplayTests
pub mod Threshold
pub mod Committee
pub mod Leader
pub mod Pacemaker
pub mod Outbox
pub mod Claim
pub mod Agb
pub mod Resolve
pub mod ResolveTests
pub mod Sequence
pub mod SequenceTests
