-- ===== src/Lib.antt =====
-- Ember's Diaries: an append-only, versioned store of records for agents.
--
-- The program is the Python package embers/. A record (embers/core/record.py) is immutable and sealed
-- with a hash over its canonical payload. The physical store (embers/storage/store.py) keeps one file
-- for each record and guards every write with a write-ahead log (embers/engine/wal.py). The write
-- engine (embers/engine/writer.py) never changes a record: a new version is a new record, and what is
-- superseded, deprecated, annotated or read is kept in sidecar files beside the records. The
-- database (embers/db.py) keeps the master index (embers/index/master.py) in step by a callback
-- after each write. The read engine (embers/engine/reader.py) lays the sidecars over the records. In
-- front of durable memory stands the promotion engine (embers/engine/promotion.py), and the
-- namespace manager (embers/namespace/manager.py) says who may read and write. Sessions are records
-- that the database revises. The lobby (embers/lobby) is apart from durable memory: boards in memory
-- that the agents of one task share, whose events a broker hands to the event loops of subscribers.
--
-- Files, and the code that each is about:
--   Prelude, Dict       shared names, tests, lists, loops with fuel, Python's dict
--   Core                embers/core: Types (types.py), Record (record.py, edge.py, annotation.py,
--                       integrity.py), Proposal (evidence.py, proposal.py), Result (errors.py and
--                       results), Triples (actions with what they assume and leave); Samples holds
--                       data for tests
--   Wal                 embers/engine/wal.py: log, commit, recover, checkpoint
--   Storage             embers/storage/store.py: PhysicalStore.write, _write_record_file, _recover,
--                       read, _check_write_limits; Recovery is about crashes, Limits about limits
--   Index/Master        embers/index/master.py: MasterIndex; Walks and Descendants are about its loops
--   Index/Timeline      embers/index/timeline.py: TimelineIndex, over Python's bisect; Runs is about adds
--   Index/Graph         embers/index/graph.py: GraphIndex, which rust/ember_core/src/lib.rs carries out;
--                       Edges is about its two maps, Neighbors about its search
--   Engine/State        what the engines share; EmberDB._on_write and _index_record (embers/db.py)
--   Engine/Writer       embers/engine/writer.py: WriteEngine; EmberDB.deprecate
--   Engine/Reader       embers/engine/reader.py: ReadEngine
--   Engine/Cases, Operations, AppendOnly, Synced, Lineage, Chain, Heads, Cas, Deprecation: what
--                       calls of the write engine do, alone and in runs
--   Engine/Current      what ReadEngine.get_current reads; History: get_at; ReadBack: reading
--                       what was written
--   Engine/Sound        what a read relies on: records under their ids, deprecations of stored ones
--   Engine/Written      what is read of a record that was just written
--   Database            embers/db.py. Versions: revisions of a current version; Fields: the payload
--                       dicts; Session: embers/core/session.py, the session operations of EmberDB and
--                       the session validators of rust/ember_core/src/lib.rs; Conflict:
--                       embers/core/conflict.py, get_conflict, update_conflict_status and
--                       resolve_conflict of EmberDB, the conflict validator of lib.rs, and under
--                       Mapping map_conflict, conflict_records, conflicts_for and link; Listing: the
--                       sweep that the listings share; Evidence: embers/core/evidence.py; Failure:
--                       embers/core/failure.py, report_failure, get_failure, failures and has_failed;
--                       Wire: to_dict and from_dict of embers/core/record.py, edge.py, annotation.py;
--                       Proposal: embers/core/proposal.py, propose, get_proposal, reject, memory_status
--                       and set_status; Rewritten: updates under a record's own id
--   Identity            Registry: embers/identity/registry.py, EmberDB.write with its check of
--                       attribution (validate_provenance of rust/ember_core/src/lib.rs); Gate:
--                       resolve_agent of embers/api/session_gate.py; Registered and Closed are about
--                       both
--   Lobby               embers/lobby. Realtime: LobbyEventBroker (realtime.py); Announced, Delivery and
--                       Publishing are about its subscribers. Board, Store, Operations: LobbyStore
--                       (store.py); Seats to Effects are about who sits where. Context: context.py
--   Promotion           embers/engine/promotion.py: PromotionPolicy, PromotionEngine.route and submit
--   Namespace           embers/namespace/manager.py: NamespaceManager
--
-- How the code is modelled. Where a native extension is built, the package calls its routines in place
-- of some Python ones; the development follows the Python routines. An operation takes a state and
-- gives a result, or the error that it raises, with the state that it leaves, also where it raises.
-- What an operation draws from outside (a uuid, the clock) is an argument of it. The canonical bytes
-- and SHA-256 are one parameter, from the payload to a text; the size of an encoded record is
-- another. A float is its 64-bit pattern, which orders floats that are neither negative nor NaN as
-- their values do; a point in time is a number of microseconds. A record's file holds the record
-- that its bytes decode to, or bytes that do not decode; Database/Wire has the dicts that are encoded
-- there, and how they are read. The library that encodes and decodes dicts is taken to give back what
-- it got, and the times of a record to be printed so that they can be read. In the callback after a
-- write the steps of the other indexes than the master index are taken to return: one that raised would
-- be passed over and would leave out the mark of a superseded record. Locks are left out: the operations of an
-- engine hold one lock, so they run one after the other, and crashes stop a write between two of its
-- durable steps. In the promotion engine, the three calls of EmberDB are an interface.
--
-- Loops run on fuel. A walk along links has one unit for each link and one more, the walk over
-- sidecars one for each sidecar and one more, and the sweep over the version graph three more than
-- there are links, since no loop comes to a record twice.
--
-- In the lobby a board and a subscription are objects that several tables name; each stands in one
-- table under its id, and a change in place is written there. Its lock lets the calls run one after the
-- other. The loop of a subscriber makes the calls that it took in their order. The texts of the
-- interface are stripped and lowered by two parameters, and times are printed and read by two more,
-- and the digest of a token is a parameter too.
--
-- Python's tuples compare by their parts and its texts by their characters, as the timeline needs. The
-- normal form of an approach is made by four text parameters, and a hash of a piece of evidence, of a
-- pair of memories and of an approach are parameters.
--
-- Not modelled: the query engine, paths and subgraphs of the graph, the full text and vector indexes,
-- the cognitive routines, promote of embers/db.py with the evidence records that it writes and the
-- promotion of failures, and the HTTP and MCP servers, configuration and logs, which carry arguments to
-- the database.
pub mod Prelude
pub mod Dict
pub mod Core
pub mod Wal
pub mod Storage
pub mod Index
pub mod Engine
pub mod Database
pub mod Identity
pub mod Lobby
pub mod Promotion
pub mod Namespace
