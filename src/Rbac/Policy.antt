-- ===== src/Rbac/Policy.antt =====
-- `rbac_can_perform_action` of sirah/internal/rbac/rbac_manager.c and the functions that it is made of.
use Prim.Native.String.{slice, ◌++◌ as str_append}
use text.Mathlib.Text.{find? as find_text}
use sirah_c.Prelude.{
  Bool, true, false, not, ◌||◌, Option, none, some, List, [], ◌∷◌, String, str_eq, if◌then◌else◌,
  is_some,
}
use sirah_c.Rbac.{
  Decision, allow, deny, user, group, service_account, Subject, Rule, Role, Binding, Manager,
  get_role, get_cluster_role,
}

-- An action that is asked for. A null pointer is `none`.
pub record Request : Type 0 where
  pub user : String
  pub groups : Option String
  pub verb : String
  pub api_group : Option String
  pub resource : String
  pub namespace : Option String
  pub resource_name : Option String

pub record PolicyDecision : Type 0 where
  pub decision : Decision
  pub reason : String
  pub matched_rule : String

unfoldable pub verb_matches : String → String → Bool
verb_matches rule_verb target_verb =
    if str_eq rule_verb "*" then true else str_eq rule_verb target_verb

unfoldable pub resource_matches : String → String → Bool
resource_matches rule_resource target_resource =
    if str_eq rule_resource "*" then true else str_eq rule_resource target_resource

-- A loop that stops at the first entry that passes a test.
unfoldable pub any {ℓ} : {A : Type ℓ} → (A → Bool) → List A → Bool
any p [] = false
any p (x ∷ xs) = if p x then true else any p xs

-- `strstr`.
abbrev pub contains_text : Option String → String → Bool
contains_text none part = false
contains_text (some text) part = is_some (find_text text part)

unfoldable pub subject_matches : Request → Subject → Bool
subject_matches q s = elim s.type [
  | user ↦ str_eq s.name q.user
  | group ↦ contains_text q.groups s.name
  | service_account ↦ false
]

abbrev pub or_empty : Option String → String
or_empty none = ""
or_empty (some text) = text

abbrev pub name_matches : Option String → List String → Bool
name_matches none names = true
name_matches (some name) [] = true
name_matches (some name) (n ∷ ns) = any (λ x. str_eq x "*" || str_eq x name) (n ∷ ns)

unfoldable pub rule_matches : Request → Rule → Bool
unfolding any verb_matches resource_matches
rule_matches q r =
    if not (any (λ x. str_eq x "*" || str_eq x (or_empty q.api_group)) r.api_groups)
    then false
    else (if not (any (λ x. resource_matches x q.resource) r.resources)
        then false
        else (if not (any (λ x. verb_matches x q.verb) r.verbs)
            then false
            else name_matches q.resource_name r.resource_names))

abbrev pub role_allows : Request → Option Role → Bool
role_allows q none = false
role_allows q (some r) = any (rule_matches q) r.rules

-- The loop over the bindings: the name of the role of the first binding that allows the action.
unfoldable pub first_grant :
    (Binding → Bool) → (Binding → Option Role) → Request → List Binding → Option String
unfolding any subject_matches rule_matches
first_grant applies role_of q [] = none
first_grant applies role_of q (b ∷ bs) =
    let rest = first_grant applies role_of q bs in
    if not (applies b)
    then rest
    else (if not (any (subject_matches q) b.subjects)
        then rest
        else (if role_allows q (role_of b) then some b.role_name else rest))

unfoldable pub cluster_grant : Manager → Request → Option String
unfolding first_grant get_cluster_role
cluster_grant m q =
    first_grant (λ b. true) (λ b. get_cluster_role m b.role_name) q m.cluster_role_bindings

unfoldable pub grant_in : Manager → Request → Option String → Option String
unfolding first_grant get_role
grant_in m q none = none
grant_in m q (some namespace) =
    first_grant (λ b. str_eq b.namespace namespace) (λ b. get_role m namespace b.role_name) q
      m.role_bindings

unfoldable pub namespace_grant : Manager → Request → Option String
unfolding grant_in
namespace_grant m q = grant_in m q q.namespace

-- What `snprintf` leaves of a text in an array of 512 bytes.
abbrev pub clipped : String → String
clipped text = slice text 0 511

abbrev pub decide : Request → Option String → PolicyDecision
decide q (some matched_rule) = record {
  decision = allow;
  reason = clipped (str_append "Matched rule in " matched_rule);
  matched_rule = clipped matched_rule;
}
decide q none = record {
  decision = deny;
  reason = clipped (
      str_append "No matching rule for "
        (str_append q.user (str_append " to " (str_append q.verb (str_append " " q.resource)))));
  matched_rule = "";
}

abbrev pub first_of : Option String → Option String → Option String
first_of (some x) y = some x
first_of none y = y

unfoldable pub can_perform_action : Manager → Request → PolicyDecision
unfolding cluster_grant namespace_grant
can_perform_action m q = decide q (first_of (cluster_grant m q) (namespace_grant m q))

-- A request of one of the seven verbs with names of their own, in the API group of the empty name.
abbrev pub simple_request :
    String → Option String → String → String → Option String → Option String → Request
simple_request name groups verb resource namespace resource_name = record {
  user = name;
  groups = groups;
  verb = verb;
  api_group = some "";
  resource = resource;
  namespace = namespace;
  resource_name = resource_name;
}

unfoldable pub can_get :
    Manager → String → Option String → String → Option String → Option String → PolicyDecision
unfolding can_perform_action
can_get m name groups resource namespace resource_name =
    can_perform_action m (simple_request name groups "get" resource namespace resource_name)

unfoldable pub can_list : Manager → String → Option String → String → Option String → PolicyDecision
unfolding can_perform_action
can_list m name groups resource namespace =
    can_perform_action m (simple_request name groups "list" resource namespace none)

unfoldable pub can_watch :
    Manager → String → Option String → String → Option String → PolicyDecision
unfolding can_perform_action
can_watch m name groups resource namespace =
    can_perform_action m (simple_request name groups "watch" resource namespace none)

unfoldable pub can_create :
    Manager → String → Option String → String → Option String → PolicyDecision
unfolding can_perform_action
can_create m name groups resource namespace =
    can_perform_action m (simple_request name groups "create" resource namespace none)

unfoldable pub can_update :
    Manager → String → Option String → String → Option String → Option String → PolicyDecision
unfolding can_perform_action
can_update m name groups resource namespace resource_name =
    can_perform_action m (simple_request name groups "update" resource namespace resource_name)

unfoldable pub can_patch :
    Manager → String → Option String → String → Option String → Option String → PolicyDecision
unfolding can_perform_action
can_patch m name groups resource namespace resource_name =
    can_perform_action m (simple_request name groups "patch" resource namespace resource_name)

unfoldable pub can_delete :
    Manager → String → Option String → String → Option String → Option String → PolicyDecision
unfolding can_perform_action
can_delete m name groups resource namespace resource_name =
    can_perform_action m (simple_request name groups "delete" resource namespace resource_name)
