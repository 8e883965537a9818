-- ===== src/Lib.antt =====
-- A verification library for sirah-c, a container orchestrator in C. It models the core of the
-- control plane as functions on records and proves what those functions guarantee, and where they
-- fall short.
--
-- The parts, the files that model them, and the code they stand for (paths from the repository's
-- root):
--
-- - CircuitBreaker.antt: internal/resilience/circuit_breaker.{h,c}, the breaker that guards calls
--   to a remote service. `Breaker` is `circuit_breaker_t`; `record_success`, `record_failure`,
--   `allow_request`, `get_backoff_ms` and `reset` are `circuit_breaker_...` of the same name, and
--   `success_in`, `failure_in`, `allow_in`, `backoff_in` are their `switch` on the state. The clock
--   and `rand()` are arguments. Below it: Backoff (the delay), Trip (the thresholds), Probing (the
--   open and the half-open state).
-- - Scheduler.antt: internal/scheduler/scheduler.{h,c}, the nodes, their labels and taints.
--   Scheduler/Scoring.antt is internal/scheduler/scoring.c, with a division by 0 as `none`.
--   Scheduler/Placement.antt holds the rest of scheduler.c: whether a pod fits, `find_best_node`,
--   `score_nodes`, `bind_pod`, `evict_pod`, `schedule_pod`. The scheduler calls the scoring, and a
--   `none` of the scoring is a `none` of the choice. Below it: Accounting, Calls and Invariant (pod
--   counts and assignments, over sequences of calls), Choice (the chosen node against the list of
--   scores), Weights (when the score is defined), Binding (bind and evict).
-- - Ipam.antt, Ipam/Pools.antt and Ipam/Queries.antt: internal/ipam/ipam_manager.{h,c}, the
--   addresses of nodes, pods and services. `Manager` is `ipam_manager_t`, `Pool` an array of
--   addresses with the capacity that is on record and the room that the array really has, so that a
--   write behind its end is an outcome, `none`. Ipam/Bytes.antt is `htonl` and `ntohl`. Below it:
--   Allocation (the search and the growing arrays), Sharing (how often an address is held), Given
--   (what giving an address does to any manager), Bounds, Invariant and History (what the other
--   operations keep of a manager as `ipam_manager_create` means to leave it, were it not for its
--   write through a null pointer), Faults (what goes wrong).
-- - HealthProbe.antt: internal/probes/health_probe.{h,c}, the probes of a pod. `judge` is the body
--   of `pod_probe_update_result`; `survey` is the loop that the three questions about a pod share;
--   `Network` holds what the operating system answers. Below it: Hysteresis (the verdict against
--   the history of results) and Gates (what the probes say together).
-- - InstanceLifecycle.antt: internal/monitor/instance_lifecycle.{h,c}, the record of an instance.
--   InstanceLifecycle/Manager.antt is the manager with its monitor thread, of which `monitor_round`
--   is one turn of the loop; InstanceLifecycle/Shutdown.antt holds the shutdown, with a list of
--   what the clock and `kill(pid, 0)` answer in the rounds of its waiting loop. Below it: States,
--   Restarts, Registry (the manager as a table) and Reasons (the text of the last failure).
-- - RequestCache.antt: sirah/internal/cache/request_cache.{h,c}, a cache of responses. `look_up` is
--   the loop of `k8s_request_cache_get`, `least_hits` and `take_at` the eviction. Below it:
--   Accounting (the sizes), History (sequences of calls) and Lookup (what a key gives).
-- - Table.antt: no file of the repository, but the arrays of records found by a key that the
--   managers under sirah/internal keep. Below it: Laws and Cases (what a lookup gives after a
--   change, and the outcomes), Entries (what holds of every entry), Filters (the entries that pass
--   a test) and Refinement (an array against a finite map of limited size).
-- - Rbac.antt: sirah/internal/rbac/rbac_manager.{h,c}, the roles of the access control;
--   Rbac/Bindings.antt holds the bindings, the audit log and what the manager makes itself,
--   Rbac/Policy.antt the decision `rbac_can_perform_action`, of which `first_grant` is the loop
--   over bindings and `rule_matches` the test of a rule. Below it: Covering and Access (whom the
--   decision lets do what), Extension, Grants and Denials (what follows), Calls, Effects and
--   Refinement (sequences of calls against four finite maps), Audit (the log).
-- - Job.antt: sirah/internal/job/job.{h,c}, the table of jobs; Job/Pods.antt holds what changes one
--   job and the questions about it, of which `wants_pods` is `job_should_create_more_pods` and
--   `over_limit` is `job_is_failed`. Below it: Validity, Calls and Invariant (sequences of calls),
--   Progress (how a job completes or stalls), Retries (when it fails, waits and expires).
-- - HighAvailability.antt: internal/ha/ha_manager.{h,c}, the election of a leader. `thread_step` is
--   one step of `ha_election_thread`, `settle` what it does with the answer of the store. Below it:
--   Callbacks (what the callbacks say) and Leaders (how many managers lead).
-- - StatefulSet.antt: sirah/internal/statefulset/statefulset.{h,c}, the table of stateful sets;
--   StatefulSet/Pods.antt holds the pods by their ordinals, StatefulSet/Updates.antt the choice of
--   the next pod to create (`first_next`) and to delete (`last_alive`), the counts and the rolling
--   update. Below it: Order and Wanted (what the choices are) and Rollout (the start in order).
-- - ConnectionPool.antt: sirah/internal/optimization/connection_pool.{h,c}, a pool of connections.
--   `take_idle` is the search of `k8s_connection_pool_acquire`, `connect` its second half. Below
--   it: Leases (whom a connection belongs to) and Cleanup.
-- - LimitRange.antt: sirah/internal/limitrange/limitrange.{h,c}, the table of limit ranges. Below
--   it: Limits (the checks, the defaults and the queries; `find_item` is the search that the checks
--   repeat), Quantities (amounts as texts), Admission (what is let in), Later (further ranges of a
--   namespace) and Invariant.
-- - GracefulShutdown.antt: internal/shutdown/graceful_shutdown.{h,c}, the shutdown of a server.
--   Below it: Calls (sequences of calls, and `shutdown_manager_wait`, whose loop is `wait_from` on
--   a number of rounds), Drain (how the wait ends; a round that comes after the grace period is the
--   bound on its rounds) and Handlers.
--
-- The parts do not call one another, but for the scheduler, which calls its scoring. Each keeps its
-- own state. But for the request cache and the connection pool, which have no mutex and are taken
-- to be used by one thread, the operations hold a mutex from end to end, so that concurrent calls
-- come to a sequence of whole operations; but the creations of jobs, stateful sets and limit ranges
-- compare the count with the limit before they lock it, and `shutdown_manager_initiate` releases it
-- between the handlers, which the model leaves out as well; `schedule_pod` and `restart` are two
-- such operations each, and a monitor round and a shutdown let other operations come between their
-- steps, which the model leaves out; the steps of the election thread are modelled one by one.
-- Prelude.antt passes on the library names and holds the Boolean tests, `u32`, and the lemmas that
-- the parts share. `Tests` modules hold runs on small inputs. The tables of the access control, the
-- jobs, the stateful sets, the limit ranges and the connections are Table.antt at different keys.
--
-- Bounds. `uint32_t` arithmetic is written out modulo 2^32. The scheduler's `int` and `long`
-- amounts are natural numbers, and taken to stay within their types, but for the percentages that a
-- `long` division puts into an `int`. The loops on fuel are the search for an address and the wait
-- of a shutdown, for which GracefulShutdown/Drain.antt says how many rounds are enough. The fuel of
-- the search is the number of addresses in the range, one for each round of the loop. (The loop of
-- the code never ends where a range ends at 2^32 - 1 and is all taken; the model answers `none`
-- there.) History speaks of up to 2^29 calls of the address manager, before which no capacity
-- wraps. The sums of sizes in the request cache, which an `int` may not hold, are outcomes, `none`.
--
-- Not modelled: null arguments, which every operation turns away before it reads any state; the
-- failure of `strdup` and of the scheduler's own allocations; freeing and printing; the conversion
-- between text and addresses, where `inet_pton` and `atoi` stand as the numbers that they read; and
-- the parts of the repository that are HTTP, etcd, JSON or process control.
mod Prelude
pub mod CircuitBreaker
pub mod Scheduler
pub mod Ipam
pub mod Table
pub mod Rbac
pub mod Job
pub mod StatefulSet
pub mod LimitRange
pub mod GracefulShutdown
pub mod HighAvailability
pub mod HealthProbe
pub mod InstanceLifecycle
pub mod RequestCache
pub mod ConnectionPool
