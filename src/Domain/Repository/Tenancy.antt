-- ===== src/Domain/Repository/Tenancy.antt =====
-- Every project that hangs under a program belongs to the organization of that program's portfolio,
-- and no operation breaks this.
use ai_pmo_copilot.Common.{
  ℕ, String, ◌≡◌, refl, ap, inl, inr, Option, none, some, false, not, List, [], ◌∷◌, Ensures,
  Ensures-or_raise, Ensures-unless, ◌==◌, some_is, find_first, find_first-append, All, All-imp,
  All-append, arith, Bool-cases,
}
use ai_pmo_copilot.Domain.Tables.{
  Portfolio, Program, Project, Tables, portfolio_at, program_at, organization_at, project_at,
}
use ai_pmo_copilot.Domain.Repository.{
  organization_of_program, owner, portfolio_of, create_portfolio, create_program,
  create_project_with_domain, attach_project_to_program, attach, with_project, portfolio_code_taken,
  program_code_taken, project_name_taken,
}

some_is-eq : (o : Option ℕ) (n : ℕ) → not (some_is o n) ≡ false → o ≡ some n
some_is-eq none n h = cc
some_is-eq (some m) n h = ground arith

module _ {F : Type 0} where
  abbrev pub Owned : Tables F → ℕ → Option ℕ → Type 0
  Owned t organization_id none = Unit
  Owned t organization_id (some program_id) =
      organization_of_program t program_id ≡ some organization_id

  abbrev pub IsOwned : Tables F → Project F → Type 0
  IsOwned t p = Owned t p.organization_id p.program_id

  -- Each project under a program belongs to the program's organization.
  abbrev pub IsConsistent : Tables F → Type 0
  IsConsistent t = All (IsOwned t) t.projects

  -- Every program keeps its organization.
  abbrev Extends : Tables F → Tables F → Type 0
  Extends t u =
      (program_id organization_id : ℕ)
      → organization_of_program t program_id ≡ some organization_id
      → organization_of_program u program_id ≡ some organization_id

  Owned-Extends :
      (t u : Tables F) (organization_id : ℕ) (program_id : Option ℕ)
      → Extends t u
      → Owned t organization_id program_id
      → Owned u organization_id program_id
  Owned-Extends t u g none e h = tt
  Owned-Extends t u g (some q) e h = e q g h

  All-Extends :
      (t u : Tables F) (ps : List (Project F))
      → Extends t u
      → All (IsOwned t) ps
      → All (IsOwned u) ps
  All-Extends t u ps e h =
      All-imp (IsOwned t) (IsOwned u) ps (λ p. Owned-Extends t u p.organization_id p.program_id e) h

  owner-some :
      (o : Option (Portfolio F)) (g : ℕ)
      → owner o ≡ some g
      → (p : Portfolio F) × (o ≡ some p) × (p.organization_id ≡ g)
  owner-some none g h = cc
  owner-some (some p) g h = (p, refl, cc)

  portfolio_of-some :
      (t : Tables F) (o : Option (Program F)) (f : Portfolio F)
      → portfolio_of t o ≡ some f
      → (p : Program F) × (o ≡ some p) × (portfolio_at t p.portfolio_id ≡ some f)
  portfolio_of-some t none f h = cc
  portfolio_of-some t (some p) f h = (p, refl, h)

  -- Tables in which every portfolio and program is still found under its id change no owner.
  Extends-of_found :
      (t u : Tables F)
      → ((i : ℕ) (f : Portfolio F) → portfolio_at t i ≡ some f → portfolio_at u i ≡ some f)
      → ((i : ℕ) (p : Program F) → program_at t i ≡ some p → program_at u i ≡ some p)
      → Extends t u
  unfolding organization_of_program
  Extends-of_found t u fs gs q g h =
      let (f, ef, eg) = owner-some _ g h in
      let (p, ep, eq) = portfolio_of-some t _ f ef in
      rw (gs q p ep) (rw (fs p.portfolio_id f eq) (ap some eg))

  abbrev pub After : {A : Type 0} → A × Tables F → Type 0
  After r = IsConsistent r.1

  Extends-projects :
      (t : Tables F) (ps : List (Project F)) (n : ℕ)
      → Extends t (record t { projects = ps; next_project = n })
  unfolding organization_of_program
  Extends-projects t ps n i o k = k

  create_portfolio-IsConsistent :
      (organization_id : ℕ) (name code : String) (fields : F) (t : Tables F)
      → IsConsistent t
      → Ensures After (create_portfolio organization_id name code fields t)
  unfolding create_portfolio
  create_portfolio-IsConsistent g name code fields t h =
      Ensures-or_raise After _ (organization_at t g) _ λ org _.
        Ensures-unless After _ (portfolio_code_taken t g code) _ λ _.
          All-Extends t _ t.projects
            (Extends-of_found t _ (λ i f k. find_first-append _ t.portfolios _ f k) (λ i p k. k)) h

  create_program-IsConsistent :
      (portfolio_id : ℕ) (name code : String) (fields : F) (t : Tables F)
      → IsConsistent t
      → Ensures After (create_program portfolio_id name code fields t)
  unfolding create_program
  create_program-IsConsistent f name code fields t h =
      Ensures-or_raise After _ (portfolio_at t f) _ λ portfolio _.
        Ensures-unless After _ (program_code_taken t f code) _ λ _.
          All-Extends t _ t.projects
            (Extends-of_found t _ (λ i p k. k) (λ i p k. find_first-append _ t.programs _ p k)) h

  create_project_with_domain-IsConsistent :
      (organization_id program_id : ℕ) (name : String) (fields : F) (t : Tables F)
      → IsConsistent t
      → Ensures After (create_project_with_domain organization_id program_id name fields t)
  unfolding create_project_with_domain
  create_project_with_domain-IsConsistent g q name fields t h =
      Ensures-or_raise After _ (organization_at t g) _ λ org _.
        Ensures-or_raise After _ (program_at t q) _ λ program _.
          Ensures-unless After _ (not (some_is (organization_of_program t q) g)) _ λ own.
            Ensures-unless After _ (project_name_taken t g name) _ λ _.
              All-append (IsOwned (with_project g q name fields t)) t.projects _
                (All-Extends t (with_project g q name fields t) t.projects
                  (λ i o. Extends-projects t _ _ i o) h)
                (Extends-projects t _ _ q g (some_is-eq (organization_of_program t q) g own), tt)

  All-attach :
      (t : Tables F) (project_id program_id : ℕ) (set_fields : F → F) (pr : Project F)
      (ps : List (Project F))
      → find_first (λ (p : Project F). p.id == project_id) ps ≡ some pr
      → organization_of_program t program_id ≡ some pr.organization_id
      → All (IsOwned t) ps
      → All (IsOwned t) (attach project_id program_id set_fields ps)
  unfolding attach
  All-attach t i q set_fields pr [] e o h = tt
  All-attach t i q set_fields pr (p ∷ ps) e o h = elim (Bool-cases (p.id == i)) [
    | inl here ↦ rw here (ground arith, h.1)
    | inr there ↦ rw there (h.0, All-attach t i q set_fields pr ps (ground arith) o h.1)
  ]

  attach_project_to_program-IsConsistent :
      (project_id program_id : ℕ) (set_fields : F → F) (t : Tables F)
      → IsConsistent t
      → Ensures After (attach_project_to_program project_id program_id set_fields t)
  unfolding attach_project_to_program
  attach_project_to_program-IsConsistent i q set_fields t h =
      Ensures-or_raise After _ (project_at t i) _ λ pr found.
        Ensures-or_raise After _ (program_at t q) _ λ program _.
          Ensures-unless After _ (not (some_is (organization_of_program t q) pr.organization_id)) _
            λ own.
              All-Extends t _ (attach i q set_fields t.projects) (λ j o. Extends-projects t _ _ j o)
                (All-attach t i q set_fields pr t.projects found
                  (some_is-eq (organization_of_program t q) pr.organization_id own) h)

  -- All four writes of the repository keep every project that hangs under a program in the
  -- organization of that program's portfolio.
  pub writes-IsConsistent :
      (t : Tables F)
      → IsConsistent t
      → ((organization_id : ℕ) (name code : String) (fields : F)
          → Ensures After (create_portfolio organization_id name code fields t))
        × ((portfolio_id : ℕ) (name code : String) (fields : F)
            → Ensures After (create_program portfolio_id name code fields t))
        × ((organization_id program_id : ℕ) (name : String) (fields : F)
            → Ensures After (create_project_with_domain organization_id program_id name fields t))
        × ((project_id program_id : ℕ) (set_fields : F → F)
            → Ensures After (attach_project_to_program project_id program_id set_fields t))
  writes-IsConsistent t h = (
    λ g name code fields. create_portfolio-IsConsistent g name code fields t h,
    λ f name code fields. create_program-IsConsistent f name code fields t h,
    λ g q name fields. create_project_with_domain-IsConsistent g q name fields t h,
    λ i q set_fields. attach_project_to_program-IsConsistent i q set_fields t h,
  )
