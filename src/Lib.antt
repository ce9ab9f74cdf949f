-- ===== src/Lib.antt =====
-- capsule8: a verification library for the sensor.
--
-- The sensor turns kernel events into telemetry. It reads them from perf ring buffers
-- (pkg/sys/perf), keeps a cache of the host's tasks from them (pkg/sensor) and one of its
-- containers (pkg/container), and lets a subscriber filter events by expressions over their
-- fields (pkg/expression, with the messages of api/v0).
-- A subscription's expression is validated and typed once; each event is then evaluated by it, and
-- the part that the kernel understands is handed to the kernel as a filter. The event monitor's
-- maps are read by one goroutine while others register events. The task cache is fed by the
-- monitor's handlers and asked by every event for its process and its container.
--
-- Files and code:
--   Prelude: numbers, lists, strings, maps and results that the parts share. Int has 64-bit
--     signed numbers, Double the bit patterns of float64, Bytes the functions of `strings`,
--     Unicode the two tests of `unicode` as a parameter, Maps Go's maps, Outcome what a Go function
--     returns: a value, an error, or a panic.
--   Api: the messages Value and Expression of api/v0/expression.pb.go. A message pointer that may
--     be nil is an Option, a `oneof` a data type.
--   Expression: pkg/expression. Validate, Typecheck and Kernel are validate.go; Compare, Fields,
--     Operators and Evaluate are evaluate.go; Build and Value are expression.go; Types is types.go.
--     A function keeps its Go name: validateTree is validate_tree, evaluateNode is evaluate_node.
--     The evaluator's stack is a list that each step is given and returns. A test of a switch on
--     message types is a match on constructors; Go's error texts are constructors of Error. A read
--     through a nil pointer and a slice bound out of range are panics, which are results here.
--     Evaluate/Denote gives expressions a meaning without a stack, WellFormed a grammar, Like a
--     description of the patterns, Safety the types of values.
--   Perf: pkg/sys/perf. SafeMap is maps.go; a Go map is a reference, so the maps stand in a heap.
--     TraceField and TypeNames are the data types of fields in tracepoint.go, with the lengths
--     that Go keeps in an int as integers. Decode is decodeDataType of decoder.go, DecoderMap its
--     TraceEventDecoderMap. Attr, Record and Sample are types.go: EventAttr.write, the records with
--     their read methods (SampleRecord is Record/Sampled), SampleID, Sample, and readSamples of
--     monitor.go. They are actions of Reader, which stands for bytes.Reader and encoding/binary: an
--     action takes the buffer and the position and returns a value, an error or a panic with the
--     new position. The cache of getSize is a field of the reader. RingBuffer is read of
--     ringbuffer.go. Monitor is the registration of events in monitor.go with the maps under its
--     lock; its invariant is in Monitor/Consistent and Monitor/Complete. Monitor/Rounds is
--     readRingBuffers with flushPendingSamples, and Monitor/Dispatch is dispatchSortedSamples up
--     to the call of the client's function.
--   Sensor: pkg/sensor. Task, TaskCache (Array, Table) and ProcessInfo are process_info.go. The
--     interface taskCache is a record of operations, TaskCache/Contract the laws that its clients
--     use. ProcessInfo is written over every implementation. ContainerEvents is
--     translateContainerEvents of container.go, over sequences of messages, and ContainerFilter its
--     containerFilter, as sensor.go sets it up.
--   Container: pkg/container. Cache is cache.go.
--
-- Bounds and fuel: an integer of the program keeps its width where the code depends on it. The
-- trees are finite, so the functions on them recur on the tree. lookupLeader and
-- ProcessContainerId are loops that Go does not bound: they run on fuel here. A cache in which
-- parents stand below their children has a depth for each task, and fuel above that depth is
-- enough; without such an order there may be no such fuel. readSamples runs on one round of fuel
-- for each record and one more. The padding of a command's name is at most 7 bytes.
--
-- Parameters: the letters and digits of the unicode package; the values and types of an event's
-- fields, as lookups; what /proc says of a task's container; the boot identifier and SHA-256; the
-- formats of trace events; what the kernel answers to a registration, and the bytes it leaves;
-- package glob; the methods of a wait status.
--
-- Not modelled: goroutines beyond sequences of steps, log lines, system calls and files, the
-- generated marshalling; the fields that Go keeps of a record or an identifier whose reading
-- fails midway; the wrap-around of event identifiers; and, so far, decodeRawData of decoder.go,
-- the group leaders and the goroutines of monitor.go, the event producers and subscriptions of
-- pkg/sensor but for what is named above, the rest of pkg/container, pkg/stream, pkg/sys/mount.go
-- and pkg/sys/proc.
pub mod Prelude
pub mod Api
pub mod Container
pub mod Expression
pub mod Perf
pub mod Sensor
