-- ===== src/LimitRange/Admission.antt =====
-- What the checks of sirah/internal/limitrange/limitrange.c let in, before and after the defaults.
use sirah_c.Prelude.{
  ℕ, ◌≤◌, ◌≡◌, ◌↔◌, ◌⊎◌, refl, ap, subst, ◌∙◌, inl, inr, false, some, String, if_elim, ltb, arith,
  Option-cases,
}
use sirah_c.LimitRange.{container, ResourceLimit, Item, Manager}
use sirah_c.LimitRange.Limits.{
  admitted, is_below, is_above, find_item, check_container, validate_container, or_default,
  requests_of, limits_of, apply_container_defaults, apply_container_limit_defaults,
}

-- An amount that is asked for is no less than the minimum.
abbrev pub HasFloor : ℕ → ResourceLimit → Type 0
HasFloor amount l = (amount ≡ 0) ⊎ (l.min_bytes ≤ amount)

-- An amount that is asked for is no more than the maximum, if there is one.
abbrev pub HasCeiling : ℕ → ResourceLimit → Type 0
HasCeiling amount l = (amount ≡ 0) ⊎ ((l.max_bytes ≡ 0) ⊎ (amount ≤ l.max_bytes))

-- The four amounts of a container fit an item.
abbrev pub Fits : Item → ℕ → ℕ → ℕ → ℕ → Type 0
Fits i cpu_request cpu_limit memory_request memory_limit =
    HasFloor cpu_request i.cpu
    × HasCeiling cpu_limit i.cpu
    × HasFloor memory_request i.memory
    × HasCeiling memory_limit i.memory

not_below : (a : ℕ) (l : ResourceLimit) → is_below a l ≡ false → HasFloor a l
not_below a l h = ground arith

floored : (a : ℕ) (l : ResourceLimit) → HasFloor a l → is_below a l ≡ false
floored a l h = ground arith

not_above : (a : ℕ) (l : ResourceLimit) → is_above a l ≡ false → HasCeiling a l
not_above a l h = ground arith

ceiled : (a : ℕ) (l : ResourceLimit) → HasCeiling a l → is_above a l ≡ false
ceiled a l h = ground arith

check_container-admitted :
    (i : Item) (cr cl mr ml : ℕ)
    → check_container (some i) cr cl mr ml ≡ admitted
    → Fits i cr cl mr ml
unfolding check_container
check_container-admitted i cr cl mr ml h = (
  not_below cr i.cpu (ground arith),
  not_above cl i.cpu (ground arith),
  not_below mr i.memory (ground arith),
  not_above ml i.memory (ground arith),
)

check_container-Fits :
    (i : Item) (cr cl mr ml : ℕ)
    → Fits i cr cl mr ml
    → check_container (some i) cr cl mr ml ≡ admitted
unfolding check_container
check_container-Fits i cr cl mr ml (a, b, c, d) =
    rw (floored cr i.cpu a, ceiled cl i.cpu b, floored mr i.memory c, ceiled ml i.memory d) refl

-- A container is let in exactly when its amounts fit the item that the search finds for containers in the
-- namespace, if it finds one: each request is 0 or no less than the minimum, and each limit is 0 or no
-- more than a maximum that is not 0.
pub validate_container-admitted_iff :
    (m : Manager) (namespace : String) (cr cl mr ml : ℕ)
    → (validate_container m namespace cr cl mr ml ≡ admitted)
      ↔ ((i : Item) → find_item container namespace m.limitranges ≡ some i → Fits i cr cl mr ml)
unfolding validate_container check_container
validate_container-admitted_iff m namespace cr cl mr ml = (
  λ h i there.
      check_container-admitted i cr cl mr ml
        (subst (λ o. check_container o cr cl mr ml ≡ admitted) there h),
  λ fits. elim (Option-cases (find_item container namespace m.limitranges)) [
    | inl nowhere ↦ rw nowhere refl
    | inr (i, there) ↦
        ap (λ o. check_container o cr cl mr ml) there
        ∙ check_container-Fits i cr cl mr ml (fits i there)
  ],
)

-- The defaults of an item keep its own limits; a default of 0 is none.
pub record IsCoherent (i : Item) : Type 0 where
  pub cpu_request : HasFloor i.cpu.default_request_bytes i.cpu
  pub cpu_limit : HasCeiling i.cpu.default_bytes i.cpu
  pub memory_request : HasFloor i.memory.default_request_bytes i.memory
  pub memory_limit : HasCeiling i.memory.default_bytes i.memory

or_default-HasFloor :
    (a d : ℕ) (l : ResourceLimit) → HasFloor a l → HasFloor d l → HasFloor (or_default a d) l
or_default-HasFloor a d l given default =
    if_elim (λ n. HasFloor n l) (ltb 0 a) (λ on. given) (λ off. default)

or_default-HasCeiling :
    (a d : ℕ) (l : ResourceLimit) → HasCeiling a l → HasCeiling d l → HasCeiling (or_default a d) l
or_default-HasCeiling a d l given default =
    if_elim (λ n. HasCeiling n l) (ltb 0 a) (λ on. given) (λ off. default)

-- Where the item that is found for containers in a namespace has defaults that keep its own limits, a
-- container that is let in gets its defaults, of requests and of limits, and is let in with them too.
pub defaults_admitted :
    (m : Manager) (namespace : String) (cr cl mr ml : ℕ) (i : Item)
    → find_item container namespace m.limitranges ≡ some i
    → IsCoherent i
    → validate_container m namespace cr cl mr ml ≡ admitted
    → (requests : ℕ × ℕ) × (limits : ℕ × ℕ) × (apply_container_defaults m namespace cr mr
        ≡ some requests)
      × (apply_container_limit_defaults m namespace cl ml ≡ some limits)
      × (validate_container m namespace requests.0 limits.0 requests.1 limits.1 ≡ admitted)
unfolding apply_container_defaults apply_container_limit_defaults validate_container
defaults_admitted m namespace cr cl mr ml i there c h =
    let fits : Fits i cr cl mr ml =
      (validate_container-admitted_iff m namespace cr cl mr ml).0 h i there in
    let request : ℕ × ℕ =
      (or_default cr i.cpu.default_request_bytes, or_default mr i.memory.default_request_bytes) in
    let limit : ℕ × ℕ = (or_default cl i.cpu.default_bytes, or_default ml i.memory.default_bytes) in
    (
      request,
      limit,
      ap (λ o. requests_of o cr mr) there,
      ap (λ o. limits_of o cl ml) there,
      ap (λ o. check_container o request.0 limit.0 request.1 limit.1) there
          ∙ check_container-Fits i request.0 limit.0 request.1 limit.1 (
            or_default-HasFloor cr i.cpu.default_request_bytes i.cpu fits.0 c.cpu_request,
            or_default-HasCeiling cl i.cpu.default_bytes i.cpu fits.1 c.cpu_limit,
            or_default-HasFloor mr i.memory.default_request_bytes i.memory fits.2 c.memory_request,
            or_default-HasCeiling ml i.memory.default_bytes i.memory fits.3 c.memory_limit,
          ),
    )
