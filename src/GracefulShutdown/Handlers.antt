-- ===== src/GracefulShutdown/Handlers.antt =====
-- Which handlers internal/shutdown/graceful_shutdown.c calls, and when.
use sirah_c.Prelude.{
  ℕ, zero, suc, ◌≡◌, refl, ap, ◌∙◌, Bool, true, false, Option, none, some, List, [], ◌∷◌, ◌++◌,
  if◌then◌else◌, if_elim, ltb, length, get_elem?,
}
use sirah_c.GracefulShutdown.{
  running, shutting_down, Handler, Manager, put_first, calls_down, initiate, request_start,
  request_end,
}
use sirah_c.GracefulShutdown.Calls.{Call, starts, ends, initiates, call, run}

-- The last one first.
abbrev pub backwards : List Handler → List Handler
backwards [] = []
backwards (h ∷ hs) = backwards hs ++ h ∷ []

abbrev pub asks_to_shut_down : List Call → Bool
asks_to_shut_down [] = false
asks_to_shut_down (starts ∷ cs) = asks_to_shut_down cs
asks_to_shut_down (ends ∷ cs) = asks_to_shut_down cs
asks_to_shut_down (initiates now ∷ cs) = true

put_first-append :
    (o : Option Handler) (hs ks : List Handler) → put_first o (hs ++ ks) ≡ put_first o hs ++ ks
put_first-append none hs ks = refl
put_first-append (some h) hs ks = refl

calls_down-cons :
    (h : Handler) (hs : List Handler) (n : ℕ)
    → calls_down (h ∷ hs) (suc n) ≡ calls_down hs n ++ h ∷ []
unfolding calls_down
calls_down-cons h hs zero = refl
calls_down-cons h hs (suc n) =
    ap (put_first (get_elem? hs n)) (calls_down-cons h hs n)
    ∙ put_first-append (get_elem? hs n) (calls_down hs n) (h ∷ [])

calls_down-backwards : (hs : List Handler) → calls_down hs (length hs) ≡ backwards hs
unfolding calls_down
calls_down-backwards [] = refl
calls_down-backwards (h ∷ hs) =
    calls_down-cons h hs (length hs) ∙ ap (λ ks. ks ++ h ∷ []) (calls_down-backwards hs)

request_end-keeps :
    (m : Manager) → ((request_end m).state ≡ m.state) × ((request_end m).handlers ≡ m.handlers)
unfolding request_end
request_end-keeps m =
    if_elim (λ (n : Manager). (n.state ≡ m.state) × (n.handlers ≡ m.handlers))
      (ltb 0 m.stats.active_requests) (λ some_left. (refl, refl)) (λ idle. (refl, refl))

-- A manager that shuts down calls no handler any more.
run_down-silent : (m : Manager) (cs : List Call) → m.state ≡ shutting_down → (run m cs).1 ≡ []
unfolding run call initiate request_start
run_down-silent m [] down = refl
run_down-silent m (starts ∷ cs) down = run_down-silent (request_start m) cs down
run_down-silent m (ends ∷ cs) down =
    run_down-silent (request_end m) cs ((request_end-keeps m).0 ∙ down)
run_down-silent m (initiates now ∷ cs) down =
    rw down (run_down-silent (record m { state = shutting_down }) cs refl)

append_nothing : (hs : List Handler) → hs ++ [] ≡ hs
append_nothing [] = refl
append_nothing (h ∷ hs) = ap (λ ks. h ∷ ks) (append_nothing hs)

-- In any sequence of starts and ends of requests and of shutdowns, a running manager calls every handler
-- that is registered once, the last one first, if a shutdown is asked for, however often, and no handler
-- otherwise.
pub run-backwards :
    (m : Manager) (cs : List Call)
    → m.state ≡ running
    → (run m cs).1 ≡ (if asks_to_shut_down cs then backwards m.handlers else [])
unfolding run call initiate request_start
run-backwards m [] up = refl
run-backwards m (starts ∷ cs) up = run-backwards (request_start m) cs up
run-backwards m (ends ∷ cs) up =
    run-backwards (request_end m) cs ((request_end-keeps m).0 ∙ up)
    ∙ ap (λ hs. if asks_to_shut_down cs then backwards hs else []) (request_end-keeps m).1
run-backwards m (initiates now ∷ cs) up =
    let down : Manager = record m {
      state = shutting_down;
      stats = record m.stats { shutdown_start = now };
    } in
    rw (up, run_down-silent down cs refl, calls_down-backwards m.handlers)
      (append_nothing (backwards m.handlers))
