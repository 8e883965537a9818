-- ===== src/LimitRange/Tests.antt =====
-- Limit ranges of sirah/internal/limitrange/limitrange.c in the namespace "web".
use sirah_c.Prelude.{ℕ, ◌<◌, ◌≡◌, ◌↔◌, refl, inl, inr, true, false, some, [], ◌∷◌, arith, str_eq}
use sirah_c.LimitRange.{
  container, ResourceLimit, Item, Spec, Manager, create, new_range, list_count,
}
use sirah_c.LimitRange.Limits.{
  cpu_above_maximum, denied, admitted, find_item, validate_container, validate_pod,
  validate_storage, apply_container_defaults, apply_container_limit_defaults,
}
use sirah_c.LimitRange.Admission.{
  Fits, IsCoherent, validate_container-admitted_iff, defaults_admitted,
}
use sirah_c.LimitRange.Later.{later_range_ignored}
use sirah_c.LimitRange.Invariant.{
  HasValidRanges, starts, creates, updates, deletes, run, run-HasValidRanges,
}
use sirah_c.LimitRange.Quantities.{parse_resource}

abbrev cpu : ResourceLimit
cpu = record {
  min_bytes = 100;
  max_bytes = 2000;
  default_bytes = 1000;
  default_request_bytes = 200;
  max_limit_request_ratio = 0;
}

abbrev no_limit : ResourceLimit
no_limit = record {
  min_bytes = 0;
  max_bytes = 0;
  default_bytes = 0;
  default_request_bytes = 0;
  max_limit_request_ratio = 0;
}

abbrev item : Item
item = record { type = container; type_name = ""; cpu = cpu; memory = no_limit; storage = no_limit }

abbrev spec : Spec
spec = record {
  name = "small";
  namespace = "web";
  items = item ∷ [];
  created_at = 0;
  updated_at = 0;
  generation = 0;
}

abbrev manager : Manager
manager = record { initialized = true; limitranges = new_range "web" "small" 7 spec ∷ [] }

too_much : validate_container manager "web" 0 2001 0 0 ≡ denied cpu_above_maximum
unfolding validate_container
too_much = refl

elsewhere : validate_container manager "shop" 0 2001 0 0 ≡ admitted
unfolding validate_container
elsewhere = refl

wide : validate_container manager "web" 150 0 64 64 ≡ admitted
unfolding validate_container
wide = refl

-- The suffix of thousandths is passed over.
thousandths : parse_resource (some 500) (str_eq "m") ≡ some 500
unfolding parse_resource
thousandths = refl

found : find_item container "web" manager.limitranges ≡ some item
unfolding find_item
found = refl

item-IsCoherent : IsCoherent item
item-IsCoherent = record {
  cpu_request = inr (omega arith);
  cpu_limit = inr (inr (omega arith));
  memory_request = inl refl;
  memory_limit = inl refl;
}

one_range : 0 < list_count manager "web"
unfolding list_count
one_range = omega arith

validate_container-admitted_iff_example :
    (validate_container manager "web" 150 0 64 64 ≡ admitted)
    ↔ ((i : Item) → find_item container "web" manager.limitranges ≡ some i → Fits i 150 0 64 64)
validate_container-admitted_iff_example = validate_container-admitted_iff manager "web" 150 0 64 64

defaults_admitted_example :
    (requests : ℕ × ℕ) × (limits : ℕ × ℕ) × (apply_container_defaults manager "web" 150 64
      ≡ some requests)
    × (apply_container_limit_defaults manager "web" 0 64 ≡ some limits)
    × (validate_container manager "web" requests.0 limits.0 requests.1 limits.1 ≡ admitted)
defaults_admitted_example =
    defaults_admitted manager "web" 150 0 64 64 item found item-IsCoherent wide

later_range_ignored_example :
    ((cr cl mr ml : ℕ)
      → validate_container (create manager "web" "large" spec 9).0 "web" cr cl mr ml
        ≡ validate_container manager "web" cr cl mr ml)
    × ((cr cl mr ml n : ℕ)
        → validate_pod (create manager "web" "large" spec 9).0 "web" cr cl mr ml n
          ≡ validate_pod manager "web" cr cl mr ml n)
    × ((bytes : ℕ)
        → validate_storage (create manager "web" "large" spec 9).0 "web" bytes
          ≡ validate_storage manager "web" bytes)
later_range_ignored_example = later_range_ignored manager "web" "large" spec 9 one_range

run-HasValidRanges_example : HasValidRanges (
    run
      (record { initialized = false; limitranges = [] })
      (starts
        ∷ creates "web" "small" spec 7
        ∷ updates "web" "small" spec 8
        ∷ deletes "web" "none"
        ∷ []))
run-HasValidRanges_example =
    run-HasValidRanges (record { initialized = false; limitranges = [] })
      (starts
        ∷ creates "web" "small" spec 7
        ∷ updates "web" "small" spec 8
        ∷ deletes "web" "none"
        ∷ [])
      refl
