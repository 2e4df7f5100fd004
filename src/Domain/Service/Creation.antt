-- ===== src/Domain/Service/Creation.antt =====
-- The creating methods of `DomainService`: what they refuse, and what they leave behind.
use ai_pmo_copilot.Common.{
  ℕ, ◌<◌, ◌+◌, ◌==◌, String, ◌≡◌, ◌≢◌, refl, Option, none, some, some_is, false, true, not, List,
  [], ◌∷◌, ◌++◌, Result, ok, or_raise, ◌>>=◌, All, arith, is_none, Bool, keep_if, if◌then◌else◌,
  find_first, find_first-append_none, ==_iff,
}
use ai_pmo_copilot.Domain.Tables.{
  Portfolio, Program, Project, Tables, portfolio_at, organization_at, program_at,
}
use ai_pmo_copilot.Domain.Repository.{
  get_portfolio, get_program, get_project, organization_of_program, create_project_with_domain,
  project_name_taken, with_project, portfolio_of, owner, portfolio_in,
}
use ai_pmo_copilot.Domain.Service.{State, Published, create_project, Call}
use ai_pmo_copilot.Domain.Service.Outcomes.{get_program-foreign}

refused :
    {F A : Type 0} (b : Bool) (s : State F) (rest : Call F (Option A))
    → b ≡ true
    → (if b then ok (none, s) else rest) ≡ ok (none, s)
refused true s rest e = refl
refused false s rest e = cc

or_raise-found :
    {E A B : Type 0} (e : E) (o : Option A) (f : A → Result E B) (r : Result E B)
    → o ≢ none
    → ((a : A) → f a ≡ r)
    → (or_raise e o >>= f) ≡ r
or_raise-found e none f r h k = elim (h refl) [ ]
or_raise-found e (some a) f r h k = k a

-- An event of the service about the project `id` of the program.
abbrev pub project_event : String → ℕ → ℕ → ℕ → String → Published
project_event event_type id program_id organization_id correlation_id = record {
  event_type = event_type;
  payload = ("project_id", id) ∷ ("program_id", program_id) ∷ [];
  organization_id = organization_id;
  correlation_id = correlation_id;
  origin = "domain_service";
}

module _ {F : Type 0} where
  -- No project is created under a program that does not belong to the organization: the call answers
  -- `none`, and nothing is written, recorded in the audit or published.
  pub create_project-foreign :
      (organization_id program_id : ℕ) (name : String) (actor_user_id : ℕ) (correlation_id : String)
      (fields : F) (s : State F)
      → organization_of_program s.tables program_id ≢ some organization_id
      → create_project organization_id program_id name actor_user_id correlation_id fields s
        ≡ ok (none, s)
  unfolding create_project
  create_project-foreign g q name actor correlation fields s foreign =
      refused _ s _ (get_program-foreign s.tables q g foreign)

  -- ids of the projects are below the next one
  abbrev pub HasFreshIds : Tables F → Type 0
  HasFreshIds t = All (λ (p : Project F). p.id < t.next_project) t.projects

  find_first-fresh :
      (n : ℕ) (ps : List (Project F))
      → All (λ (p : Project F). p.id < n) ps
      → find_first (λ (p : Project F). p.id == n) ps ≡ none
  find_first-fresh n [] h = refl
  find_first-fresh n (p ∷ ps) (x, h) = let ih = find_first-fresh n ps h in ground arith

  abbrev pub project_row : ℕ → ℕ → ℕ → String → F → Project F
  project_row id organization_id program_id name fields = record {
    id = id;
    organization_id = organization_id;
    name = name;
    program_id = some program_id;
    fields = fields;
  }

  get_project-new :
      (organization_id program_id : ℕ) (name : String) (fields : F) (t : Tables F)
      → HasFreshIds t
      → get_project t.next_project organization_id
          (with_project organization_id program_id name fields t)
        ≡ some (project_row t.next_project organization_id program_id name fields)
  unfolding get_project
  get_project-new g q name fields t fresh =
      rw (find_first-append_none _ t.projects _ (find_first-fresh t.next_project t.projects fresh))
        (ground arith)

  program_in-own :
      (t : Tables F) (organization_id : ℕ) (o : Option (Program F))
      → owner (portfolio_of t o) ≡ some organization_id
      → (o ≢ none)
        × (is_none (keep_if (λ (p : Program F). portfolio_in t organization_id p.portfolio_id) o)
            ≡ false)
  unfolding portfolio_in get_portfolio
  program_in-own t g none h = cc
  program_in-own t g (some p) h = (cc, portfolio_own (portfolio_at t p.portfolio_id) h)
    where
      portfolio_own :
          (o : Option (Portfolio F))
          → owner o ≡ some g
          → is_none (
              if not (is_none (keep_if (λ (f : Portfolio F). f.organization_id == g) o))
              then some p
              else none)
            ≡ false
      portfolio_own none e = cc
      portfolio_own (some f) e = ground arith

  create_project_with_domain-own :
      (organization_id program_id : ℕ) (name : String) (fields : F) (t : Tables F)
      → organization_at t organization_id ≢ none
      → program_at t program_id ≢ none
      → organization_of_program t program_id ≡ some organization_id
      → project_name_taken t organization_id name ≡ false
      → create_project_with_domain organization_id program_id name fields t
        ≡ ok (t.next_project, with_project organization_id program_id name fields t)
  unfolding create_project_with_domain
  create_project_with_domain-own g q name fields t org program own free =
      or_raise-found _ (organization_at t g) _ _ org λ _.
        or_raise-found _ (program_at t q) _ _ program
          λ _. let same : some_is (some g) g ≡ true = (==_iff g g).1 refl in rw (own, same, free)

  -- `s` with these tables, one audit entry of the actor and the two events of a new project.
  abbrev pub project_recorded : ℕ → ℕ → ℕ → ℕ → String → Tables F → State F → State F
  project_recorded id organization_id program_id actor_user_id correlation_id tables s = record {
    tables = tables;
    audit =
        s.audit
        ++ record {
          organization_id = organization_id;
          actor_user_id = actor_user_id;
          action = "project_delivery.created";
          entity_type = "project";
          entity_id = id;
        }
          ∷ [];
    published =
        s.published
        ++ project_event "project_delivery.created" id program_id organization_id correlation_id
          ∷ project_event "project_delivery.linked_to_program" id program_id organization_id
              correlation_id
          ∷ [];
  }

  -- Where the ids of the projects are below the next one: an organization that exists creates a
  -- project under a program of its own, with a name that none of its projects has. The call returns,
  -- the answer is the row, which is added to the projects under the next id; the audit has one entry
  -- more, of the organization and the actor, that says that the project was created; and two events of
  -- the organization with the ids of the project and the program are published after the others, first
  -- that it was created and then that it was linked to its program.
  pub create_project-own :
      (organization_id program_id : ℕ) (name : String) (actor_user_id : ℕ) (correlation_id : String)
      (fields : F) (s : State F)
      → organization_at s.tables organization_id ≢ none
      → organization_of_program s.tables program_id ≡ some organization_id
      → project_name_taken s.tables organization_id name ≡ false
      → HasFreshIds s.tables
      → create_project organization_id program_id name actor_user_id correlation_id fields s
        ≡ ok (
          some (project_row s.tables.next_project organization_id program_id name fields),
          project_recorded s.tables.next_project organization_id program_id actor_user_id
              correlation_id
              (record s.tables {
                projects =
                    s.tables.projects
                    ++ project_row s.tables.next_project organization_id program_id name fields
                      ∷ [];
                next_project = s.tables.next_project + 1;
              })
              s,
        )
  unfolding create_project get_program organization_of_program
  create_project-own g q name actor correlation fields s org own free fresh =
      let found = program_in-own s.tables g (program_at s.tables q) own in
      let step = create_project_with_domain-own g q name fields s.tables org found.0 own free in
      let row = get_project-new g q name fields s.tables fresh in rw (found.1, step) (rw row refl)
