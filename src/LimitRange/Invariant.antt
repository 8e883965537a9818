-- ===== src/LimitRange/Invariant.antt =====
-- What every call on the table of limit ranges of sirah/internal/limitrange/limitrange.c keeps.
use sirah_c.Prelude.{
  ℕ, ◌≤◌, ◌≡◌, inl, inr, refl, sym, ap, subst, ◌∙◌, Bool, true, false, not, Option, none, some,
  List, [], ◌∷◌, String, All, arith, if_elim, length, Bool-cases,
}
use sirah_c.Table.{pair_key}
use sirah_c.Table.Laws.{IsUnique}
use sirah_c.Table.Refinement.{Command, table_step, IsKeyed, step-Simulates}
use sirah_c.Table.Entries.{AllOf, insert-All, drop-All, change-All}
use sirah_c.LimitRange.{
  Spec, LimitRange, Manager, range_key, if_valid, put, validate_spec, new_range, renewed, init,
  shutdown, create, update, delete,
}

-- A call that changes the table, with its arguments.
pub data Call : Type 0 where
  starts stops : Call
  creates updates : String → String → Spec → ℕ → Call
  deletes : String → String → Call

unfoldable pub call : Manager → Call → Manager
unfolding init shutdown create update delete
call m starts = init m
call m stops = shutdown m
call m (creates namespace name s now) = (create m namespace name s now).0
call m (updates namespace name s now) = (update m namespace name s now).0
call m (deletes namespace name) = (delete m namespace name).0

unfoldable pub run : Manager → List Call → Manager
unfolding call
run m [] = m
run m (c ∷ cs) = run (call m c) cs

-- A range has 1 to 10 items.
abbrev pub HasItems : LimitRange → Type 0
HasItems r = (1 ≤ length r.spec.items) × (length r.spec.items ≤ 10)

-- Different ranges have different keys, there are at most 100, and each has 1 to 10 items.
pub record HasValidRanges (m : Manager) : Type 0 where
  pub unique : IsUnique range_key m.limitranges
  pub few : length m.limitranges ≤ 100
  pub valid : All HasItems m.limitranges

no_ranges : (b : Bool) → HasValidRanges (record { initialized = b; limitranges = [] })
no_ranges b = record { unique = tt; few = omega arith; valid = tt }

valid_spec-HasItems :
    (s : Spec) → validate_spec s ≡ true → (1 ≤ length s.items) × (length s.items ≤ 10)
unfolding validate_spec
valid_spec-HasItems s h = (ground arith, ground arith)

if_valid-HasValidRanges :
    (b : Bool) (m : Manager) (c : Command (String × String) LimitRange)
    → IsKeyed range_key c
    → (b ≡ true → AllOf HasItems (table_step range_key 100 m.limitranges c))
    → HasValidRanges m
    → HasValidRanges (if_valid b m (table_step range_key 100 m.limitranges c)).0
if_valid-HasValidRanges b m c keyed all s =
    elim (step-Simulates range_key 100 m.limitranges c s.unique keyed) [
      | inl (refused, refused') ↦ rw refused s
      | inr (rs, done, done', unique, bounded) ↦ elim (Bool-cases b) [
        | inl valid ↦
            let all_valid : All HasItems rs = subst (AllOf HasItems) done (all valid) in
            rw (done, valid) (record { unique = unique; few = bounded s.few; valid = all_valid })
        | inr not_valid ↦ rw (done, not_valid) s
      ]
    ]

put-if_valid : (m : Manager) (o : Option (List LimitRange)) → (put m o).0 ≡ (if_valid true m o).0
put-if_valid m none = refl
put-if_valid m (some rs) = refl

call-HasValidRanges : (m : Manager) (c : Call) → HasValidRanges m → HasValidRanges (call m c)
unfolding call init shutdown create update delete
call-HasValidRanges m starts s =
    if_elim HasValidRanges m.initialized (λ on. s) (λ off. no_ranges true)
call-HasValidRanges m stops s =
    if_elim HasValidRanges (not m.initialized) (λ off. s) (λ on. no_ranges false)
call-HasValidRanges m (creates namespace name sp now) s =
    if_valid-HasValidRanges (validate_spec sp) m (Command.creates (new_range namespace name now sp))
      tt
      (λ valid.
        insert-All range_key HasItems 100 (new_range namespace name now sp) m.limitranges s.valid
          (valid_spec-HasItems sp valid))
      s
call-HasValidRanges m (updates namespace name sp now) s =
    if_valid-HasValidRanges (validate_spec sp) m
      (Command.changes (namespace, name) (λ old. some (renewed namespace name sp now old)))
      (λ e e' at h.
        let made : renewed namespace name sp now e ≡ e' = ground arith in
        ap range_key (sym made) ∙ sym at)
      (λ valid.
        change-All range_key HasItems (namespace, name)
          (λ old. some (renewed namespace name sp now old)) m.limitranges
          (λ e e' v h.
            let made : renewed namespace name sp now e ≡ e' = ground arith in
            subst HasItems made (valid_spec-HasItems sp valid))
          s.valid)
      s
call-HasValidRanges m (deletes namespace name) s =
    subst HasValidRanges
      (sym (
        put-if_valid m
          (table_step range_key 100 m.limitranges (Command.deletes (namespace, name)))))
      (if_valid-HasValidRanges true m (Command.deletes (namespace, name)) tt
        (λ valid. drop-All range_key HasItems (namespace, name) m.limitranges s.valid) s)

run_from-HasValidRanges :
    (m : Manager) (cs : List Call) → HasValidRanges m → HasValidRanges (run m cs)
unfolding run
run_from-HasValidRanges m [] s = s
run_from-HasValidRanges m (c ∷ cs) s =
    run_from-HasValidRanges (call m c) cs (call-HasValidRanges m c s)

-- After any calls on an empty table, no two limit ranges of a namespace have the same name, there are at
-- most 100, and each has 1 to 10 items.
pub run-HasValidRanges :
    (m : Manager) (cs : List Call) → m.limitranges ≡ [] → HasValidRanges (run m cs)
run-HasValidRanges m cs empty =
    run_from-HasValidRanges m cs
      (record { unique = rw empty tt; few = ground arith; valid = rw empty tt })
