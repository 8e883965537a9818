-- ===== src/GracefulShutdown/Calls.antt =====
-- Sequences of calls on the manager of internal/shutdown/graceful_shutdown.c, with the handlers that are
-- called, and the wait of `shutdown_manager_wait`, which other calls come between.
use sirah_c.Prelude.{
  ℕ, zero, suc, ◌+◌, Bool, true, false, Option, none, some, List, [], ◌∷◌, ◌++◌, leb, ◌==◌,
  if◌then◌else◌,
}
use sirah_c.GracefulShutdown.{Handler, Manager, initiate, request_start, request_end}

-- Calls of other threads while the server runs; `initiates` has its time.
pub data Call : Type 0 where
  starts ends : Call
  initiates : ℕ → Call

unfoldable pub call : Manager → Call → Manager × List Handler
unfolding initiate request_start request_end
call m starts = (request_start m, [])
call m ends = (request_end m, [])
call m (initiates now) = initiate m now

unfoldable pub run : Manager → List Call → Manager × List Handler
unfolding call
run m [] = (m, [])
run m (c ∷ cs) = let here = call m c in let rest = run here.0 cs in (rest.0, here.1 ++ rest.1)

-- A round of the loop: the time that it reads, the calls that are made while it sleeps, and whether
-- `pthread_cond_timedwait` fails with another error than a timeout.
pub record Round : Type 0 where
  pub now : ℕ
  pub calls : List Call
  pub fails : Bool

-- The loop with its two deadlines, from round `i`; `none` where the rounds run out.
unfoldable pub wait_from : ℕ → ℕ → (ℕ → Round) → ℕ → ℕ → Manager → Option (Manager × Bool)
unfolding run
wait_from grace force rounds zero i m = none
wait_from grace force rounds (suc n) i m =
    let after = (run m (rounds i).calls).0 in
    let rest = wait_from grace force rounds n (i + 1) after in
    if m.stats.active_requests == 0
    then some (m, true)
    else (if leb force (rounds i).now
        then some (m, false)
        else (if leb grace (rounds i).now
            then some (m, false)
            else (if (rounds i).fails then some (after, false) else rest)))

unfoldable pub wait : Manager → ℕ → (ℕ → Round) → ℕ → Option (Manager × Bool)
unfolding wait_from
wait m start rounds n =
    wait_from (start + m.config.grace_period_seconds) (start + m.config.force_timeout_seconds)
      rounds n 0 m
