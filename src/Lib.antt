-- ===== src/Lib.antt =====
-- A model of HackerSprint2_sim, a simulator of a web shop that agents operate: the event-sourced core
-- of internal/simulation, the stores and the journal that keep its event streams, and the list of runs
-- that is projected from them.
--
-- A run is a stream of events. `State.Apply` (internal/simulation/state.go) gives an event its effect
-- or refuses it, `Rehydrate` (aggregate.go) replays a stream from `NewState`, and an `EventStore`
-- (store.go, cached_store.go) keeps the streams under optimistic versions. The journal
-- (internal/persistence/journal) keeps a stream as frames in a segment file, under the names and
-- payloads of internal/simulation/event_codec.go.
--
-- The parts
--   Common, Common/*      shared notation: integers over the native numbers, association lists, texts,
--                         sorting, results.
--   Model, Model/*        identifiers, enumerations and firewall rules: internal/simulation/model.
--   Events, Events/*      one record for each event: internal/simulation/events. An event of the
--                         schedule is a `Fact`; WorldScheduleCreated, which holds the schedule, is the
--                         one `Event` that is none.
--   State, State/*        the records of internal/simulation/types.go.
--   Platform              what the code calls of net/netip, fmt and strings, as a parameter.
--   Outcome, Outcome/Keeps  the sentinel errors, the guards of a handler, and for each guard the rule by
--                         which a property passes it.
--   Firewall, Firewall/Decision  firewall.go: rules, matching, and which rule decides.
--   Capacity, Capacity/*  the capacity helpers of state.go, backend_availability.go and diskUsage of
--                         query.go; the index of the used capacity and its pruning.
--   Apply, Apply/*        State.Apply with applyControlEvent (control_state.go), applyFirewallEvent
--                         (firewall_state.go) and applyDatabaseEvent (database_state.go): the event
--                         `SiteStarted` is the handler `apply_site_started`, and so on.
--   Invariant/*           what every event keeps, one file for each part of the state.
--   Decide, Decide/*      Decide on the firewall commands (aggregate.go, firewall_commands.go), with the
--                         availability changes that end a decision: Effects, Availability, Settled.
--   Stream, Stream/Replay stream.go, NewState and Rehydrate.
--   Store, Store/*        store.go and cached_store.go: the interface with its laws, the memory store
--                         that fills it, and the cache as a client of any store.
--   EventCodec, EventCodec/*  internal/simulation/event_codec.go: the names and the types
--                         of the events and their payloads, with encoding/json as a parameter.
--   Summary, Summary/*    internal/simulation/run_summary.go: the row of a run, the status and
--                         the cost that the list shows, next to the state that Apply reaches.
--   Journal, Journal/*    internal/persistence/journal. format.go: Bytes, Format (a frame), Batch (a
--                         batch), Codec (its records). store.go: Stream (the loaded stream), Segment
--                         (reading a segment), Append, Requests (known requests), Cache (acquire,
--                         release, eviction), Segments (sequences and listing). audit.go: Audit.
--   Tests, Tests/*        concrete inputs.
--
-- How the code is read
--   - A time is the number of nanoseconds since Go's zero time, so IsZero is 0. int64, int and
--     time.Duration are unbounded integers, uint64 and uint32 natural numbers: the sums of the program
--     stay far below 2^63 in a run of days, and no claim is made beyond that. Those of
--     DatabaseStorageIncreased wrap as they do in Go.
--   - A map is an association list with each key once, and `range` yields its entries in the order of
--     the list; where an order could be seen, the code sorts. Nil and empty maps or slices are one.
--   - sort.Slice is an insertion sort, which agrees with every sort where the order is total.
--   - A wrapped error is its sentinel. A refused call of Apply carries the state that it leaves behind
--     the pointer, since some handlers write before their last check.
--   - reflect.DeepEqual in markScheduled is a test of the fields of the two events.
--   - Decide reads a clone of the state, which is the state itself here. The context is not cancelled.
--   - Functions that check before they write are chains of guards: `refuse`, `found`,
--     `ensure_running`, `ensure_run_exists`.
--   - The loop of evictLocked runs on fuel, the number of cached streams: each turn drops one.
--   - In the journal a byte is a natural number, a file a list of them, and uint64 sums wrap, written
--     `% 2 ^ 64`. A closed segment stands as its decompressed bytes. CRC-32C and encoding/json are
--     parameters, and so is `faults`, the call of appendFrame or closeSegment that fails at each frame.
--     A failed write, Sync or Close leaves some first bytes of the frame in the file, or all of them.
--   - Of encoding/json it is taken that Unmarshal gives back what Marshal wrote, where each
--     json.RawMessage is compact JSON: a nil one is written as null, and comes back as these bytes.
--   - readSegment runs on fuel, one more than the file has bytes: each turn consumes a byte at least,
--     and a loop that has not ended has no answer.
--     The loop of releaseStream runs on the number of loaded streams: each turn drops one.
--   - A mutex makes a critical section one step. The operations of the cache are modelled without
--     another call between their sections.
--
-- What is not modelled: Decide on the other commands, the engine and its sessions, the generator, the
-- site logs, the SQL stores, the HTTP and web layers; of the journal, the summary file beside a stream,
-- the names of files, zstd, and failures while a stream is opened or its file is truncated.
pub mod Common
pub mod Model
pub mod Decide
pub mod Events
pub mod State
pub mod Platform
pub mod Outcome
pub mod Firewall
pub mod Capacity
pub mod Apply
pub mod Stream
pub mod Store
pub mod Invariant
pub mod EventCodec
pub mod Summary
pub mod Journal
pub mod Tests
