-- ===== src/Ipam/History.antt =====
-- Sequences of calls of internal/ipam/ipam_manager.c in which no allocation of memory fails. They begin at
-- a manager as `ipam_manager_create` means to leave it, were it not for its write through a null pointer.
use native.Mathlib.Nat.{add-zero}
use sirah_c.Prelude.{
  ℕ, suc, ◌+◌, ◌≤◌, ◌<◌, ◌≡◌, refl, sym, subst, true, Option, some, ◌>>=◌, List, [], ◌∷◌, String,
  arith, length,
}
use sirah_c.Ipam.{Manager}
use sirah_c.Ipam.Pools.{
  allocate_pod_ip, release_pod_ip, register_node, unregister_node, allocate_service_ip,
  release_service_ip,
}
use sirah_c.Ipam.Bounds.{max_calls}
use sirah_c.Ipam.Invariant.{
  IsSound, release_pod_ip-IsSound, unregister_node-IsSound, register_node-IsSound,
  allocate_pod_ip-IsSound, allocate_service_ip-IsSound, release_service_ip-IsSound,
}

pub data Call : Type 0 where
  registers unregisters : String → Call
  allocates_pod : String → Call
  releases_pod : ℕ → Call
  allocates_service : Call
  releases_service : ℕ → Call

-- The manager after a call; `none` is an invalid memory access.
unfoldable pub step : Manager → Call → Option Manager
step m (registers name) = do r ← register_node m name true true; some r.0
step m (unregisters name) = some (unregister_node m name).0
step m (allocates_pod name) = do r ← allocate_pod_ip m name true true; some r.0
step m (releases_pod ip) = some (release_pod_ip m ip).0
step m allocates_service = do r ← allocate_service_ip m true; some r.0
step m (releases_service ip) = some (release_service_ip m ip).0

unfoldable pub run : Manager → List Call → Option Manager
run m [] = some m
run m (c ∷ cs) = do m' ← step m c; run m' cs

step-IsSound :
    (k : ℕ) (m : Manager) (c : Call)
    → IsSound k m
    → k < max_calls
    → (m' : Manager) × (step m c ≡ some m') × IsSound (suc k) m'
unfolding step
step-IsSound k m (registers name) h few =
    let (m', cidr, e, h') = register_node-IsSound k m h few name in (m', rw e, h')
step-IsSound k m (unregisters name) h few = (_, refl, unregister_node-IsSound k m h few name)
step-IsSound k m (allocates_pod name) h few =
    let (m', r, e, h') = allocate_pod_ip-IsSound k m h few name in (m', rw e, h')
step-IsSound k m (releases_pod ip) h few = (_, refl, release_pod_ip-IsSound k m h few ip)
step-IsSound k m allocates_service h few =
    let (m', r, e, h') = allocate_service_ip-IsSound k m h few in (m', rw e, h')
step-IsSound k m (releases_service ip) h few = (_, refl, release_service_ip-IsSound k m h few ip)

-- From such a manager, up to 2^29 calls other than its creation, in any order and with no failing
-- allocation of memory, make no invalid memory access. They leave every address in the hands of at most one pod: the arrays of
-- the nodes hold it at most as often as the pool of all pods does, and that pool at most once.
pub run-IsSound :
    (k : ℕ) (m : Manager) (cs : List Call)
    → IsSound k m
    → k + length cs ≤ max_calls
    → (m' : Manager) × (run m cs ≡ some m') × IsSound (k + length cs) m'
unfolding run
run-IsSound k m [] h few = (m, refl, subst (λ n. IsSound n m) (sym (add-zero k)) h)
run-IsSound k m (c ∷ cs) h few =
    let (m₁, e₁, h₁) = step-IsSound k m c h (omega arith) in
    let (m₂, e₂, h₂) = run-IsSound (suc k) m₁ cs h₁ (omega arith) in
    (m₂, rw e₁ e₂, subst (λ n. IsSound n m₂) (omega arith) h₂)
