-- ===== src/Lib.antt =====
-- Akvorado collects network flows: the inlet receives them and sends them to Kafka, the outlet reads
-- them from Kafka, decodes and enriches them, and stores them in ClickHouse. This development models
-- the path of a flow through the outlet: its message, the decoders, the parser of sampled packets, the
-- enrichment, the workers that send it to ClickHouse, and the number of these workers.
--
-- The parts, with the code they model (paths from the root of the repository):
--   Scaler    outlet/kafkainput/scaler.go and the callbacks of outlet/kafkainput/root.go:
--             `next_worker_count` is `nextWorkerCount`, `handle_request` one turn of the loop of
--             `runScaler`, `run_scaler` a sequence of turns. A turn takes the request, the clock and
--             the workers that start from outside.
--   Cache     common/helpers/cache/cache.go over GoMap, the maps of Go as association lists.
--   Net       the part of Go's net/netip that is used, and common/helpers/ipv6.go.
--   Schema    common/schema: Keys is the table of columns (definition.go), Columns the columns of
--             ch-go and the switches over their types, Message the flow message with its `Append*`
--             methods (message.go, clickhouse.go, protobuf.go), Batch `Undo`, `Finalize` and `Clear`.
--             ch-go is a parameter, the record `ChGo`: what its methods do to the rows of a column.
--             The schema of a deployment is the record `Schema`.
--   Packet    outlet/flow/decoder/helpers.go: `parse_ethernet`, `parse_ipv4`, `parse_ipv6` and
--             `parse_l4` are the functions of the same names. They fill a message of Schema.
--   ClickHouse  outlet/clickhouse/worker.go: `finalize_and_send` and `flush`. Each attempt to send
--             comes with its outcome.
--   Flow      outlet/flow: Decode is decoder.go, Sflow and Netflow are the decoders of these names.
--             goflow2, which reads the wire formats, is a parameter. Stream is the message and the
--             state of the callback that the decoders call for each flow.
--   Core      outlet/core: Info are the data of the classifiers, Sources the choice between the
--             providers of AS numbers, prefix lengths and next hops, Classify the classification
--             with its two caches, Learn, Fill and Enrich the parts of `enrichFlow`, Rate the rate
--             limiter, Worker the callback and `process_incoming_flow` of worker.go, over all of the
--             above. The other components are the record `Services`, the rules of the classifiers are functions.
--   Bmp       outlet/routing/provider/bmp: Rd are the route distinguishers of rd.go, Decimal what they
--             use of Go's strconv, strings and net.
--   Intern    common/helpers/intern/intern.go: `ref`, `put` and `take` are `Ref`, `Put` and `Take`.
--             Chain are the chains of values with the same hash, Pools the well-formed pools,
--             Puts and Takes what `Put` and `Take` do to the pool.
--   Tests     the models on concrete inputs.
--
-- A result `none` is a panic of Go (an index out of range, a value of a type that a column does not
-- take). Numbers are natural numbers, with the wrap-around of the code's integers written out where
-- they can overflow. Fuel: a frame inside of frames is behind a header of 14 bytes and a routing
-- header of SRv6 is 8 bytes at least, so one more than the length of the packet is enough. The loops over the chains of a pool
-- take fuel as an argument, and more than the length of the chain is enough. All other loops are structural.
--
-- Not modelled: logs and metrics, the counters of `flowsErrors` excepted; the fields that exist in
-- debug mode only; the serialisation of caches; the wire format of Protobuf; concurrency, since a
-- message belongs to one worker and the caches lock each method. A panic in a decoder is `none`, although
-- the code recovers from it. Of the program: the rest of the routing, metadata and networks components, the
-- connections to ClickHouse and Kafka, the inlet, the orchestrator and the console.
pub mod Prelude
pub mod Scaler
pub mod GoMap
pub mod Cache
pub mod Net
pub mod Schema
pub mod Packet
pub mod Core
pub mod ClickHouse
pub mod Flow
pub mod Intern
pub mod Bmp
pub mod Tests
