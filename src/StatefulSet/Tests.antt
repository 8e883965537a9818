-- ===== src/StatefulSet/Tests.antt =====
-- A stateful set of sirah/internal/statefulset/statefulset.c with three replicas.
use sirah_c.Prelude.{ℕ, Option, ◌≡◌, ◌+◌, refl, true, none, some, [], ◌∷◌, pos, arith}
use sirah_c.StatefulSet.{
  Spec, StatefulSet, Manager, invalid, ordered_ready, rolling, new_set, create, get,
}
use sirah_c.StatefulSet.Pods.{get_pod_name, create_pvcs_for_ordinal}
use sirah_c.StatefulSet.Updates.{get_next_ordinal_to_create}
use sirah_c.StatefulSet.Wanted.{IsFirstWanted, get_next_ordinal_to_create-IsFirstWanted}
use sirah_c.StatefulSet.Rollout.{HasFirst, started, turns, turns-HasFirst}

abbrev database : Spec
database = record {
  name = "db";
  namespace = "prod";
  replicas = pos 3;
  partition = pos 0;
  service_name = "db";
  pod_template_name = "";
  pod_management_policy = ordered_ready;
  update_strategy = rolling;
  revision_history_limit = pos 10;
  termination_grace_period_seconds = pos 30;
  container_image = "db:1";
  container_port = pos 5432;
  volume_templates = [];
  selectors = [];
  created_at = 0;
  updated_at = 0;
  generation = 0;
}

abbrev set : StatefulSet
set = new_set "prod" "db" database 5

names : get_pod_name "db" 120 ≡ some "db-120"
unfolding get_pod_name
names = refl

abbrev manager : Manager
manager = record { initialized = true; statefulsets = set ∷ [] }

unset_name : (create manager "prod" "db2" (record database { name = "" }) 6).1 ≡ invalid
unfolding create
unset_name = refl

behind_the_end : create_pvcs_for_ordinal manager "prod" "db" 1000 ≡ none
unfolding create_pvcs_for_ordinal
behind_the_end = refl

first_pod : get_next_ordinal_to_create manager "prod" "db" ≡ some (some 0)
unfolding get_next_ordinal_to_create
first_pod = refl

in_table : get manager "prod" "db" ≡ some set
unfolding get
in_table = refl

get_next_ordinal_to_create-IsFirstWanted_example :
    (o : Option ℕ) × (get_next_ordinal_to_create manager "prod" "db" ≡ some o)
    × IsFirstWanted set 3 o
get_next_ordinal_to_create-IsFirstWanted_example =
    get_next_ordinal_to_create-IsFirstWanted manager "prod" "db" set in_table

abbrev shrunk : StatefulSet
shrunk = record (started 1 (started 0 set)) { spec = record database { replicas = pos 1 } }

set-HasFirst : HasFirst 0 set
set-HasFirst = record {
  ordinals = refl;
  ready_ordinals = refl;
  pods = λ i to. absurd (omega arith);
}

turns-HasFirst_example : HasFirst (0 + 3) (turns 3 set)
turns-HasFirst_example = turns-HasFirst 3 0 3 set set-HasFirst refl refl (omega arith)
