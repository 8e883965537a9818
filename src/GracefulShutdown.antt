-- ===== src/GracefulShutdown.antt =====
-- internal/shutdown/graceful_shutdown.{h,c}: the shutdown of a server. An argument is the object that a
-- pointer leads to, a function and its argument are numbers, and `now` is what `time(NULL)` answers. What
-- `malloc` and `realloc` answer is an argument. Fewer than 2^31 handlers are registered. What a handler
-- does is not part of the model: `initiate` gives the handlers that it calls, in their order.
pub mod Calls
pub mod Drain
pub mod Handlers
mod Tests
use sirah_c.Prelude.{
  ℕ, zero, suc, ◌+◌, ◌-◌, ◌*◌, ◌&&◌, Bool, true, false, Option, none, some, List, [], ◌∷◌, ◌++◌,
  leb, ltb, if◌then◌else◌, length, get_elem?, u32,
}

pub data State : Type 0 where
  running shutting_down : State

pub record Config : Type 0 where
  pub grace_period_seconds : ℕ
  pub force_timeout_seconds : ℕ
  pub drain_requests : Bool

pub record Stats : Type 0 where
  pub active_requests : ℕ
  pub total_drained : ℕ
  pub shutdown_start : ℕ

pub record Handler : Type 0 where
  pub function : ℕ
  pub userdata : ℕ

-- `handler_count` is the length of `handlers`.
pub record Manager : Type 0 where
  pub config : Config
  pub state : State
  pub stats : Stats
  pub handlers : List Handler
  pub handler_capacity : ℕ

-- The three tests are whether the manager and its two arrays are allocated.
unfoldable pub new : Config → Bool → Bool → Bool → Option Manager
new config made handlers userdata =
    if made && (handlers && userdata)
    then some (record {
      config = config;
      state = running;
      stats = record { active_requests = 0; total_drained = 0; shutdown_start = 0 };
      handlers = [];
      handler_capacity = 10;
    })
    else none

-- What the two calls of `realloc` answer.
pub data Realloc : Type 0 where
  both one neither : Realloc

abbrev pub grown : Manager → Realloc → Handler → Option (Manager × Bool)
grown m both h = some (
  record m { handlers = m.handlers ++ h ∷ []; handler_capacity = u32 (m.handler_capacity * 2) },
  true,
)
grown m one h = none
grown m neither h = some (m, false)

-- `none` where the manager is left with an array that has been given back: one of the arrays is moved, and
-- the other is not.
unfoldable pub register_handler : Manager → Handler → Realloc → Option (Manager × Bool)
register_handler m h answer =
    if leb m.handler_capacity (length m.handlers)
    then grown m answer h
    else some (record m { handlers = m.handlers ++ h ∷ [] }, true)

abbrev pub is_down : State → Bool
is_down running = false
is_down shutting_down = true

unfoldable pub is_shutting_down : Manager → Bool
is_shutting_down m = is_down m.state

abbrev pub put_first : Option Handler → List Handler → List Handler
put_first none hs = hs
put_first (some h) hs = h ∷ hs

-- The calls from the handler before the given index down to the first one.
unfoldable pub calls_down : List Handler → ℕ → List Handler
calls_down hs zero = []
calls_down hs (suc i) = put_first (get_elem? hs i) (calls_down hs i)

unfoldable pub initiate : Manager → ℕ → Manager × List Handler
unfolding calls_down
initiate m now = if is_down m.state then (m, []) else (
  record m { state = shutting_down; stats = record m.stats { shutdown_start = now } },
  calls_down m.handlers (length m.handlers),
)

abbrev pub with_active : Manager → ℕ → Manager
with_active m n = record m { stats = record m.stats { active_requests = n } }

unfoldable pub request_start : Manager → Manager
request_start m = with_active m (u32 (m.stats.active_requests + 1))

unfoldable pub request_end : Manager → Manager
request_end m =
    if ltb 0 m.stats.active_requests
    then record m {
      stats = record m.stats {
        active_requests = m.stats.active_requests - 1;
        total_drained = u32 (m.stats.total_drained + 1);
      };
    }
    else m
