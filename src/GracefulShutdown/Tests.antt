-- ===== src/GracefulShutdown/Tests.antt =====
-- A server of internal/shutdown/graceful_shutdown.c with two handlers and a request that is active.
use sirah_c.Prelude.{ℕ, ◌+◌, ◌*◌, ◌≡◌, refl, Bool, true, false, some, none, [], ◌∷◌, arith}
use sirah_c.GracefulShutdown.{Handler, Manager, running, one, register_handler}
use sirah_c.GracefulShutdown.Calls.{starts, ends, initiates, Round, run, wait}
use sirah_c.GracefulShutdown.Drain.{IsAnswer, wait_ends}
use sirah_c.GracefulShutdown.Handlers.{backwards, run-backwards}

abbrev close_listener : Handler
close_listener = record { function = 1; userdata = 0 }

abbrev flush : Handler
flush = record { function = 2; userdata = 7 }

abbrev server : Manager
server = record {
  config = record { grace_period_seconds = 30; force_timeout_seconds = 45; drain_requests = true };
  state = running;
  stats = record { active_requests = 1; total_drained = 0; shutdown_start = 0 };
  handlers = close_listener ∷ flush ∷ [];
  handler_capacity = 2;
}

-- Nothing ends, and a round takes 10 seconds.
abbrev stuck : ℕ → Round
stuck i = record { now = 100 + 10 * i; calls = []; fails = false }

-- The request ends in the first round.
abbrev draining : ℕ → Round
draining i = record { now = 100 + 10 * i; calls = ends ∷ []; fails = false }

drained : (m : Manager) × (wait server 100 draining 2 ≡ some (m, true))
unfolding wait
drained = ((run server (ends ∷ [])).0, refl)

given_up : wait server 100 stuck 4 ≡ some (server, false)
unfolding wait
given_up = refl

half_moved : register_handler server flush one ≡ none
unfolding register_handler
half_moved = refl

wait_ends_example :
    (m : Manager) × (b : Bool) × (wait server 100 stuck 4 ≡ some (m, b)) × IsAnswer stuck m b
wait_ends_example = wait_ends server 100 stuck 3 (omega arith)

run-backwards_example :
    (run server (starts ∷ initiates 100 ∷ ends ∷ initiates 101 ∷ [])).1
    ≡ backwards (close_listener ∷ flush ∷ [])
run-backwards_example =
    run-backwards server (starts ∷ initiates 100 ∷ ends ∷ initiates 101 ∷ []) refl
