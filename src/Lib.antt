-- ===== src/Lib.antt =====
-- CCaaS: concurrency control as a service, a key-value store with optimistic transactions in
-- three layers (Go, under pkg/).
--
-- A transaction runs in the execution engine (pkg/execution), which reads versioned entries from
-- the store (pkg/storage), buffers the writes, and at commit sends the versions that it read and
-- the values that it wrote to a certifier (pkg/ccaas). The certifier checks the versions against
-- its own map, numbers the commit and hands the writes to the store. The immediate certifier
-- decides each transaction when it arrives; the epoch certifier collects a batch and decides it
-- in the order of the transactions' ids. Store and certifier may stand in processes of their own,
-- behind gRPC.
--
-- Types: pkg/types/types.go. Storage: the interface `Store` of pkg/storage/storage.go with its
-- contract over an abstract table (Contract), and `MemStore` (Mem). Ccaas: the interface
-- `Certifier` of pkg/ccaas/ccaas.go with its contract (Outcome), immediate.go (Immediate) and
-- epoch.go (Epoch, with the order of a batch in Sorting and a store that panics in Panicking);
-- what both do when the store fails (Refused). Execution: pkg/execution/execution.go. World: any
-- number of clients of the engine over a certifier that answers at once; an interleaving is a
-- list of calls (safety in Serializable, progress in Progress). Service: the goroutine of
-- epoch.go with its clients; an interleaving is a list of moves, one for each wait, lock and
-- send. Service/Jobs is what the demo and the benchmark share there: programs that run on the
-- clients and wait for an answer. Grpc: the clients and servers of pkg/ccaas/grpc_*.go and
-- pkg/storage/grpc_*.go with the messages of proto/ccaspb. Network: clients of the engine whose
-- connections to the store and the certifier lose calls. Deployment: how the parts are put
-- together in one process and in three, with either kind of certifier, and how
-- cmd/ccaas-server/main.go chooses one. Demo: the bank transfers of cmd/demo/main.go, one turn
-- for each call (under epoch certification in Demo/Epochs), and what `printResults` and `main`
-- make of them (Demo/Printing). Metrics: the counters and the report of pkg/metrics/metrics.go.
-- Benchmark: the workloads of pkg/benchmark/workload.go, how driver.go chooses keys, its
-- clients, one turn for each call (Benchmark/Clients, under epoch certification in
-- Benchmark/Epochs), and `RunWith` with the `main` of cmd/benchmark (Benchmark/Running).
--
-- A method that runs under a mutex is one step: a function from the state to the new state and
-- the result. Stores and certifiers are records of such functions, so everything above them is
-- generic. A Go map is an association list (Dict); the order of iteration over it is one of those
-- that Go may choose, and no result depends on it. A uint64 is a native number, and `++` wraps at
-- 2^64; the theorems that need it say that the counter stays below. Texts are compared by code
-- points, which for UTF-8 is Go's order. Loops are structural recursion on the lists; the
-- printing of numbers takes fuel, one more than the number, which has fewer digits, and the
-- choice of keys runs over the draws to come. The balances of the demo are natural numbers: a
-- transfer takes at most what the account holds.
--
-- Parameters: what gRPC does with a call (Grpc, a fate for each call), the order that sort.Slice
-- leaves to equal elements (Common.Sorting, with its documented contract), the float64
-- arithmetic and the clock of the metrics, the numbers that the benchmark draws, its latencies
-- and its hot keys, and whether `ApplyCommit` panics.
--
-- Not modelled: the durations of timers, log lines, flags (but for the mode of the two programs
-- and `epoch-ms`), listeners and signals of cmd/, a connection to an epoch certifier that loses
-- messages, `RunWith` with only one of store and certifier given, the protobuf runtime, a second
-- call of `Stop`, negative flag values, numerals beyond int.
pub mod Common
pub mod Dict
pub mod Types
pub mod Storage
pub mod Ccaas
pub mod Execution
pub mod World
pub mod Service
pub mod Grpc
pub mod Network
pub mod Deployment
pub mod Demo
pub mod Metrics
pub mod Benchmark
mod Tests
