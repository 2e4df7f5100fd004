-- ===== src/Administration/AuditLog.antt =====
-- `record_audit` and `list_audit_log` of src/database/administration_repository.py. The details of an
-- entry are stored and not read, and are left out.
use ai_pmo_copilot.Common.{
  limited, ℕ, String, Option, none, some, Bool, true, ◌&&◌, List, [], ◌∷◌, ◌++◌, ◌==◌, str_eq,
  some_is, select, ◌≡◌, refl, All, All-select, ◌≤◌, select-append,
}
use ai_pmo_copilot.Common.Sorting.{sort_by, sort_by-append_last}

pub record AuditLog : Type 0 where
  pub organization_id : ℕ
  pub actor_user_id : ℕ
  pub action : String
  pub entity_type : String
  pub entity_id : Option ℕ
  pub created_at : ℕ

abbrev pub entry_of : ℕ → ℕ → String → String → Option ℕ → ℕ → AuditLog
entry_of organization_id actor_user_id action entity_type entity_id now = record {
  organization_id = organization_id;
  actor_user_id = actor_user_id;
  action = action;
  entity_type = entity_type;
  entity_id = entity_id;
  created_at = now;
}

-- `now` is the clock's reading.
unfoldable pub record_audit : ℕ → ℕ → String → String → Option ℕ → ℕ → List AuditLog → List AuditLog
record_audit organization_id actor_user_id action entity_type entity_id now log =
    log ++ entry_of organization_id actor_user_id action entity_type entity_id now ∷ []

abbrev pub reversed {ℓ} : {A : Type ℓ} → List A → List A
reversed [] = []
reversed (x ∷ xs) = reversed xs ++ x ∷ []

-- the filters on the type and the id, where they are given
abbrev pub of_type : Option String → AuditLog → Bool
of_type none entry = true
of_type (some entity_type) entry = str_eq entry.entity_type entity_type

abbrev pub of_entity : Option ℕ → AuditLog → Bool
of_entity none entry = true
of_entity (some entity_id) entry = some_is entry.entity_id entity_id

abbrev pub is_listed : ℕ → Option String → Option ℕ → AuditLog → Bool
is_listed organization_id entity_type entity_id entry =
    entry.organization_id == organization_id
    && of_type entity_type entry
    && of_entity entity_id entry

-- The newest first; those of one time in the reverse of the table's order, where the database may
-- choose.
unfoldable pub list_audit_log : ℕ → ℕ → Option String → Option ℕ → List AuditLog → List AuditLog
list_audit_log organization_id limit entity_type entity_id log = limited limit (
    reversed (
      sort_by (λ (a : AuditLog). a.created_at)
        (select (is_listed organization_id entity_type entity_id) log)))

reversed-append {ℓ} : {A : Type ℓ} (xs : List A) (a : A) → reversed (xs ++ a ∷ []) ≡ a ∷ reversed xs
reversed-append [] a = refl
reversed-append (x ∷ xs) a = rw (reversed-append xs a) refl

-- The entry that was recorded last is listed first, if it passes the filters and is not older than
-- the others.
pub list_audit_log-last :
    (organization_id : ℕ) (entity_type : Option String) (entity_id : Option ℕ) (log : List AuditLog)
    (entry : AuditLog)
    → All (λ (a : AuditLog). a.created_at ≤ entry.created_at) log
    → is_listed organization_id entity_type entity_id entry ≡ true
    → list_audit_log organization_id 1 entity_type entity_id (log ++ entry ∷ []) ≡ entry ∷ []
unfolding list_audit_log
list_audit_log-last organization_id entity_type entity_id log entry older passes =
    let p = is_listed organization_id entity_type entity_id in
    let key = λ (a : AuditLog). a.created_at in
    let last : select p (entry ∷ []) ≡ entry ∷ [] = rw passes refl in
    rw (select-append p log (entry ∷ [])) (
      rw last (
        rw
          (sort_by-append_last key (select p log) entry
            (All-select (λ (a : AuditLog). a.created_at ≤ entry.created_at) p log older))
          (rw (reversed-append (sort_by key (select p log)) entry) refl)))
