-- ===== src/Lib.antt =====
-- mAIstr0, a coordinator that splits a task into subtasks and sends them to model servers.
--
-- The program's parts. The orchestrator (internal/orchestrator) receives tasks over HTTP, lets the
-- scheduler (internal/scheduler) split them and assign each subtask to a node, and records their
-- course in the task manager (internal/taskmgr), which writes every change to a store. Requests to
-- nodes pass circuit breakers, dispatch gates and limits for each client. Coordinators exchange
-- copies of tasks in pages (internal/syncpage), and a replicated log (internal/consensus) drives a
-- key-value state machine. Work that is not a request runs on a pool (internal/workpool), and a model
-- too large for one node is split over several (internal/shard). Instances find each other and elect
-- an orchestrator by announcements (internal/discovery), and a registry (internal/cluster) holds what
-- the nodes report.
--
-- The files and the code that they model:
--   Prelude            Go's maps, strings and strconv as far as the code uses them
--   Scheduler          internal/scheduler/graph.go: Graph (TaskGraph, AddNode, AddEdge,
--                      ReadyNodes), Search (the depth-first search of Validate), Validation
--                      (Validate), Sorting (TopologicalSort), and the records Subtask and Assignment
--   TaskManager        internal/taskmgr: Model (model.go), Ids (genID, taskSequence), Frontier
--                      (checkpoint.go), Persist (the writes), Transitions (what an operation does to
--                      a task), Lifecycle (lifecycle.go and ResumeTaskChecked), Attempts
--                      (dispatch_attempts.go), Operations (all of them as one step), Recovery
--                      (recovery.go), Sync (sync.go, with syncTasks in Exchange), MemoryStore
--                      (memorystore.go), Dependencies (deps.go)
--   Router             internal/orchestrator: Breaker (router_breaker.go), Gate
--                      (node_dispatch_gate.go), Capacity (capacity_gate.go, as a relation of steps),
--                      ClientLimits (router_client_limits.go)
--   Shard              internal/shard: Memory (plan_memory.go and multiplyDivideCeil), Placement
--                      (plan_placement.go), Llama (the allocations of planLlamaCPPRPC)
--   SyncPage           internal/syncpage/page.go: Next
--   WorkPool           internal/workpool/pool.go, as a relation of steps
--   Discovery          internal/discovery/discovery.go: what is taken of announcements, and the
--                      election
--   Cluster            internal/cluster/registry.go
--   Consensus          internal/consensus/fsm.go
--   Examples           runs on concrete data
--
-- How they correspond. A map is an association list (Prelude.Dict). A method that changes its
-- receiver returns the new one. The record Manager has the fields of taskmgr.Manager without its
-- locks: a method holds its task's locks from its lookup to its last write, so it is one step, and
-- a run of steps in any order is any interleaving of concurrent callers. The finalizer runs in a
-- goroutine of its own; what it returns is a later step, finish_synthesis. The store is a parameter,
-- the record Store over any type of states, which may fail at every write; MemoryStore fills it.
-- The record TaskManager.Keeps is the interface between properties of single tasks and the
-- operations: a property fills it, and Operations.Preservation does every operation once for all.
-- TaskGraphFromSubtasks is the argument graph_of, the clock's reading the argument now (one reading
-- for each operation), the random jitter of a breaker and the digest of a mutation are arguments, and
-- the HMAC of an announcement is a predicate on it. The scores of the registry's nodes and the
-- comparison of their versions, which compute with float64, are parameters, and a map that Upsert
-- ranges over while it may stop early is in one order, any. An announcement's time is not before 1970.
--
-- Bounds and fuel. The digits of a number are computed on fuel, which is the number itself, and
-- each round divides by the base. The search of Validate has one unit more than there are nodes, as
-- each visit that goes on colours an unvisited node; the loop of TopologicalSort has the first
-- queue and the edges, as each round takes an id off the queue and adds at most the dependents of
-- one node; the placement of layers and the binary search have the number of layers. Ids are read
-- back by a 32-bit parse, so the results on ids hold below 2^31. Sequence numbers are uint64 and
-- wrap around. A float64 is only copied and stands as its bits; the score of an announcement, which
-- is compared and is no NaN, as its place among the numbers.
--
-- Not modelled: the bolt store, HTTP handlers and clients, TLS, mDNS and processes, which are input
-- and output; scoring, which computes with float64; the node agent and its supervisor, engines, the
-- vLLM plan of sharding, memory, configuration, hardware probes, self-update, the commands and the
-- web application. Errors are told apart by their kind and arguments, not by their texts.
pub mod Prelude
pub mod Scheduler
pub mod TaskManager
pub mod Router
pub mod Shard
pub mod SyncPage
pub mod WorkPool
pub mod Consensus
pub mod Discovery
pub mod Cluster
pub mod Examples
