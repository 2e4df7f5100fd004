-- ===== src/Identity/Login/Entitlement.antt =====
-- Whom `authenticate` admits.
use ai_pmo_copilot.Common.{
  ◌≡◌, refl, sym, ap, ◌∙◌, String, Option, none, some, true, false, List, inl, inr, ◌⊎◌, Bool-cases,
}
use ai_pmo_copilot.Domain.Tables.{Organization}
use ai_pmo_copilot.Administration.Accounts.{User}
use ai_pmo_copilot.Administration.Users.{Texts, normalize_email}
use ai_pmo_copilot.Identity.Authentication.{
  Credentials, Identified, get_organization_by_slug, get_user_by_email, identified, rehashed,
  authenticate_hash, authenticate_user, authenticate_in, authenticate,
}
use ai_pmo_copilot.Identity.Login.{LoginRequest, Realm}

module _ (texts : Texts) (credentials : Credentials) (s : Realm) (request : LoginRequest) where
  -- The password is that of an active user, who has the email in the organization of the request.
  abbrev pub IsEntitled : Organization → User → Type 0
  IsEntitled organization user =
      (get_organization_by_slug request.organization s.organizations ≡ some organization)
      × (get_user_by_email organization.id (normalize_email texts request.email) s.users
          ≡ some user)
      × (user.is_active ≡ true)
      × ((hash : String) × (user.password_hash ≡ some hash)
          × (credentials.verify request.password hash ≡ true))

  abbrev pub authenticated : Option Identified × List User
  authenticated =
      authenticate credentials request.password texts request.organization request.email
        s.organizations s.users

  -- the answer of `authenticate`, with the users that it leaves
  abbrev pub IsAuthentication : Option Identified × List User → Type 0
  IsAuthentication result =
      (((organization : Organization) (user : User) → IsEntitled organization user → ⊥)
        × (result ≡ (none, s.users)))
      ⊎ ((organization : Organization) × (user : User) × (users : List User) × IsEntitled
            organization user
          × (result ≡ (some (identified organization user), users)))

  abbrev pub NoneEntitled : Type 0
  NoneEntitled = (organization : Organization) (user : User) → IsEntitled organization user → ⊥

  -- who is entitled is whom the queries find
  pub entitled_user :
      (organization o : Organization) (user u : User)
      → get_organization_by_slug request.organization s.organizations ≡ some organization
      → get_user_by_email organization.id (normalize_email texts request.email) s.users ≡ some user
      → IsEntitled o u
      → user ≡ u
  entitled_user organization o user u at_o at_u h =
      let both : some organization ≡ some o = sym at_o ∙ h.0 in
      let one : organization ≡ o = cc in
      let found : some user ≡ some u =
        sym at_u
        ∙ ap
            (λ (x : Organization).
              get_user_by_email x.id (normalize_email texts request.email) s.users)
            one
        ∙ h.1 in
      cc

  at_hash :
      (organization : Organization) (user : User)
      → get_organization_by_slug request.organization s.organizations ≡ some organization
      → get_user_by_email organization.id (normalize_email texts request.email) s.users ≡ some user
      → (found : Option String) → user.password_hash ≡ found
      → IsAuthentication
          (authenticate_hash credentials request.password organization user s.users found)
  at_hash organization user at_o at_u none e = inl (no_hash, refl)
    where
      no_hash : NoneEntitled
      no_hash o u h =
          let same = entitled_user organization o user u at_o at_u h in
          let (_, _, _, (hash, at_h, _)) = h in
          let bad : none ≡ some hash = sym e ∙ ap (λ (x : User). x.password_hash) same ∙ at_h in cc
  at_hash organization user at_o at_u (some hash) e = elim (Bool-cases user.is_active) [
    | inr inactive ↦ rw inactive (
        inl (
          λ o u h.
              let same = entitled_user organization o user u at_o at_u h in
              let bad : false ≡ true = sym inactive ∙ ap (λ (x : User). x.is_active) same ∙ h.2 in
              cc,
          refl,
        ))
    | inl active ↦ elim (Bool-cases (credentials.verify request.password hash)) [
      | inr wrong ↦ rw active (rw wrong (inl (is_wrong wrong, refl)))
      | inl right ↦ rw active (
          rw right (
            inr (
              organization,
              user,
              rehashed credentials request.password hash user s.users,
              (at_o, at_u, active, (hash, e, right)),
              refl,
            )))
    ]
  ]
    where
      is_wrong : credentials.verify request.password hash ≡ false → NoneEntitled
      is_wrong wrong o u h =
          let same = entitled_user organization o user u at_o at_u h in
          let (_, _, _, (hash', at_h, right)) = h in
          let both : some hash ≡ some hash' =
            sym e ∙ ap (λ (x : User). x.password_hash) same ∙ at_h in
          let one : hash ≡ hash' = cc in
          let bad : false ≡ true =
            sym wrong ∙ ap (credentials.verify request.password) one ∙ right in
          cc

  at_user :
      (organization : Organization)
      → get_organization_by_slug request.organization s.organizations ≡ some organization
      → (found : Option User)
      → get_user_by_email organization.id (normalize_email texts request.email) s.users ≡ found
      → IsAuthentication (authenticate_user credentials request.password organization s.users found)
  at_user organization at_o (some user) e = at_hash organization user at_o e user.password_hash refl
  at_user organization at_o none e = inl (absent, refl)
    where
      absent : NoneEntitled
      absent o u h =
          let both : some organization ≡ some o = sym at_o ∙ h.0 in
          let one : organization ≡ o = cc in
          let bad : none ≡ some u =
            sym e
            ∙ ap
                (λ (x : Organization).
                  get_user_by_email x.id (normalize_email texts request.email) s.users)
                one
            ∙ h.1 in
          cc

  at_organization :
      (found : Option Organization)
      → get_organization_by_slug request.organization s.organizations ≡ found
      → IsAuthentication
          (authenticate_in credentials request.password texts request.email s.users found)
  at_organization (some organization) e =
      at_user organization e
        (get_user_by_email organization.id (normalize_email texts request.email) s.users) refl
  at_organization none e = inl (λ o u h. let bad : none ≡ some o = sym e ∙ h.0 in cc, refl)

  pub authenticate-IsAuthentication : IsAuthentication authenticated
  unfolding authenticate
  authenticate-IsAuthentication =
      at_organization (get_organization_by_slug request.organization s.organizations) refl
