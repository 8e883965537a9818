-- ===== src/Rbac/Audit.antt =====
-- The audit log of sirah/internal/rbac/rbac_manager.c.
use mathlib.Core.List.{append_assoc, append-nil}
use sirah_c.Prelude.{
  ℕ, zero, suc, ◌+◌, ◌-◌, ◌≤◌, ◌≡◌, inl, inr, refl, sym, ap, subst, ◌∙◌, List, [], ◌∷◌, ◌++◌, arith,
  Bool-cases, leb, length, length-append, map,
}
use sirah_c.Rbac.{AuditEvent, Manager}
use sirah_c.Rbac.Bindings.{log_audit, make_room}

module _ {ℓ} {A : Type ℓ} where
  abbrev pub skip : ℕ → List A → List A
  skip zero xs = xs
  skip (suc i) [] = []
  skip (suc i) (x ∷ xs) = skip i xs

  -- The last entries, at most so many.
  abbrev pub newest : ℕ → List A → List A
  newest n xs = skip (length xs - n) xs

  skip-append : (i : ℕ) (xs ys : List A) → i ≤ length xs → skip i (xs ++ ys) ≡ skip i xs ++ ys
  skip-append zero xs ys h = refl
  skip-append (suc i) [] ys h = absurd (omega arith)
  skip-append (suc i) (x ∷ xs) ys h = skip-append i xs ys (omega arith)

  skip-nil : (i : ℕ) → skip i [] ≡ []
  skip-nil zero = refl
  skip-nil (suc i) = refl

  skip-skip : (i j : ℕ) (xs : List A) → skip i (skip j xs) ≡ skip (j + i) xs
  skip-skip i zero xs = ap (λ k. skip k xs) (omega arith)
  skip-skip i (suc j) [] = skip-nil i ∙ sym (skip-nil (suc j + i))
  skip-skip i (suc j) (x ∷ xs) =
      let step : suc j + i ≡ suc (j + i) = omega arith in rw step (skip-skip i j xs)

  length-skip : (i : ℕ) (xs : List A) → length (skip i xs) ≡ length xs - i
  length-skip zero xs = omega arith
  length-skip (suc i) [] = omega arith
  length-skip (suc i) (x ∷ xs) = omega (arith, length-skip i xs)

  -- What was dropped before does not matter to what is dropped now.
  newest-append : (n : ℕ) (xs ys : List A) → newest n (newest n xs ++ ys) ≡ newest n (xs ++ ys)
  newest-append n xs ys =
      let d : ℕ = length xs - n in
      let dropped : skip d xs ++ ys ≡ skip d (xs ++ ys) = sym (skip-append d xs ys (omega arith)) in
      ap (newest n) dropped
      ∙ skip-skip (length (skip d (xs ++ ys)) - n) d (xs ++ ys)
      ∙ ap (λ k. skip k (xs ++ ys)) (omega (arith, length-skip d (xs ++ ys), length-append xs ys))

make_room_lem :
    (es : List AuditEvent) (e : AuditEvent)
    → length es ≤ 10000
    → make_room es ++ e ∷ [] ≡ newest 10000 (es ++ e ∷ [])
make_room_lem [] e within = refl
make_room_lem (x ∷ es) e within =
    let count = length-append (x ∷ es) (e ∷ []) in
    elim (Bool-cases (leb 10000 (length (x ∷ es)))) [
      | inl full ↦
          let excess : length (x ∷ es ++ e ∷ []) - 10000 ≡ 1 = ground (arith, count) in
          rw (full, excess) refl
      | inr room ↦
          let excess : length (x ∷ es ++ e ∷ []) - 10000 ≡ 0 = ground (arith, count) in
          rw (room, excess) refl
    ]

-- What a log holds after an event is the newest of what it held and the event.
log_audit_lem :
    (m : Manager) (e : AuditEvent) (now : ℕ)
    → length m.audit_logs ≤ 10000
    → (log_audit m e now).audit_logs
      ≡ newest 10000 (m.audit_logs ++ record e { timestamp = now } ∷ [])
unfolding log_audit
log_audit_lem m e now within = make_room_lem m.audit_logs (record e { timestamp = now }) within

abbrev pub stamped : AuditEvent × ℕ → AuditEvent
stamped e = record e.0 { timestamp = e.1 }

-- Events, each with the time at which it is logged.
unfoldable pub log_all : Manager → List (AuditEvent × ℕ) → Manager
log_all m [] = m
log_all m (e ∷ es) = log_all (log_audit m e.0 e.1) es

length-newest {ℓ} : {A : Type ℓ} (n : ℕ) (xs : List A) → length (newest n xs) ≤ n
length-newest n xs = omega (arith, length-skip (length xs - n) xs)

-- A log of at most 10000 entries holds, after any number of events, the newest 10000 of the old entries
-- and the events, in the order in which they were logged and with the times of the logging.
pub log_all_lem :
    (m : Manager) (es : List (AuditEvent × ℕ))
    → length m.audit_logs ≤ 10000
    → (log_all m es).audit_logs ≡ newest 10000 (m.audit_logs ++ map stamped es)
unfolding log_all
log_all_lem m [] within =
    let excess : length m.audit_logs - 10000 ≡ 0 = omega arith in
    rw (append-nil m.audit_logs, excess) refl
log_all_lem m (e ∷ es) within =
    let first = log_audit_lem m e.0 e.1 within in
    let bounded : length (log_audit m e.0 e.1).audit_logs ≤ 10000 =
      subst (λ l. length l ≤ 10000) (sym first)
        (length-newest 10000 (m.audit_logs ++ stamped e ∷ [])) in
    log_all_lem (log_audit m e.0 e.1) es bounded
    ∙ ap (λ l. newest 10000 (l ++ map stamped es)) first
    ∙ newest-append 10000 (m.audit_logs ++ stamped e ∷ []) (map stamped es)
    ∙ ap (newest 10000) (append_assoc m.audit_logs (stamped e ∷ []) (map stamped es))
