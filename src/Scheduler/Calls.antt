-- ===== src/Scheduler/Calls.antt =====
-- The calls of internal/scheduler/scheduler.c as steps of a history.
use sirah_c.Prelude.{ℕ, Option, none, some, List, [], ◌∷◌, String}
use sirah_c.Scheduler.{
  Status, Pod, Scheduler, init, begin_run, shutdown, add_node, update_node_status, add_node_label,
  add_node_taint, remove_node_taint, cordon_node, uncordon_node, drain_node,
}
use sirah_c.Scheduler.Placement.{bind_pod, evict_pod, schedule_pod}

pub data Call : Type 0 where
  inits runs shuts_down : Call
  adds_node : String → ℕ → ℕ → ℕ → Call
  updates_status : String → String → ℕ → Call
  adds_label : String → String → String → Call
  adds_taint : String → String → Call
  removes_taint : String → String → Call
  cordons : String → ℕ → Call
  uncordons : String → ℕ → Call
  drains : String → Call
  binds : String → String → Call
  evicts : String → Call
  schedules : Pod → Call

-- A call whose scoring traps ends the program: the state is not read again.
abbrev pub after_schedule : Scheduler → Option (Scheduler × Status) → Scheduler
after_schedule s none = s
after_schedule s (some (s', status)) = s'

unfoldable pub step : Scheduler → Call → Scheduler
step s inits = (init s).0
step s runs = begin_run s
step s shuts_down = shutdown s
step s (adds_node name cpu memory now) = (add_node s name cpu memory now).0
step s (updates_status name status now) = (update_node_status s name status now).0
step s (adds_label name key value) = (add_node_label s name key value).0
step s (adds_taint name taint) = (add_node_taint s name taint).0
step s (removes_taint name taint) = (remove_node_taint s name taint).0
step s (cordons name now) = (cordon_node s name now).0
step s (uncordons name now) = (uncordon_node s name now).0
step s (drains name) = (drain_node s name).0
step s (binds pod name) = (bind_pod s pod name).0
step s (evicts pod) = (evict_pod s pod).0
step s (schedules p) = after_schedule s (schedule_pod s p)

unfoldable pub run : Scheduler → List Call → Scheduler
run s [] = s
run s (c ∷ cs) = run (step s c) cs
