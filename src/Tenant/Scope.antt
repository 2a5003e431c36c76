-- ===== src/Tenant/Scope.antt =====
-- Who gets the scope of an organization (internal/tenant/middleware.go).
use nearby_backend.Prelude.{
  ◌≡◌, ◌↔◌, refl, sym, subst, inl, inr, Bool, true, false, not, String, Option, none, some, List,
  [], ◌∷◌, Any, find, and-split, ==_iff, ◌==◌, if◌then◌else◌, arith,
}
use nearby_backend.Prelude.Text.{text_eq, trim_space}
use nearby_backend.Platform.Errors.{Error, not_a_member, org_required, validation, forbidden}
use nearby_backend.Platform.Database.{
  missing, ok, World, ◌>>=◌, ◌>>◌, return, guard, lift, on_error, query,
}
use nearby_backend.Platform.Facts.{
  Triple, Gives, Leaves, Anyhow, Anything, anything_calm, bind-Triple, seq-Triple, mono-Triple,
  guard-Triple, lift-Triple, return-Triple, query-Triple, on_error-Triple, Triple-Leaves,
}
use nearby_backend.Accounts.Tables.{
  Uuid, Role, owner, admin, staff, unknown_role, MemberRow, Store, one_row,
}
use nearby_backend.Tenant.Models.{role_rank, role_at_least}
use nearby_backend.Tenant.Queries.{is_member, get_membership}
use nearby_backend.Tenant.Members.{membership}
use nearby_backend.Tenant.Access.{
  Org, in_context, must_identity, must_org, require_org, require_org_role,
}

-- A row of `members` with this key and role.
abbrev pub HasRole : Uuid → Uuid → Role → MemberRow → Type 0
HasRole provider_id user_id role r =
    (r.provider_id ≡ provider_id) × (r.user_id ≡ user_id) × (r.role ≡ role)

found-HasRole :
    (p u : Uuid) (rs : List MemberRow) (r : MemberRow)
    → find (is_member p u) rs ≡ some r
    → Any (HasRole p u r.role) rs
unfolding find
found-HasRole p u [] r h = absurd (cc)
found-HasRole p u (x ∷ xs) r h = go (is_member p u x) refl (found-HasRole p u xs r) h
  where
    go :
        (b : Bool)
        → is_member p u x ≡ b
        → (find (is_member p u) xs ≡ some r → Any (HasRole p u r.role) xs)
        → (if b then some x else find (is_member p u) xs) ≡ some r
        → Any (HasRole p u r.role) (x ∷ xs)
    go true e rest g =
        let (here, him) = and-split (x.provider_id == p) (x.user_id == u) e in
        inl ((==_iff x.provider_id p).0 here, (==_iff x.user_id u).0 him, cc)
    go false e rest g = inr (rest g)

-- The scope of a caller who is a member now.
pub record IsMemberScope (parse_uuid : String → Option Uuid) (identity : Option Uuid)
    (header : String) (org : Org) (s : Store) : Type 0 where
  pub user : Uuid
  pub authenticated : identity ≡ some user
  pub selected : parse_uuid (trim_space header) ≡ some org.provider_id
  pub member : Any (HasRole org.provider_id user org.role) s.members

in_context-some :
    {A : Type 0} (e : Error) (o : Option A) (a : A) → in_context e o ≡ ok a → o ≡ some a
in_context-some e none a h = absurd (cc)
in_context-some e (some b) a h = cc

role_read :
    (p u : Uuid) (s : Store) (r : Option MemberRow)
    → find (is_member p u) s.members ≡ r
    → Gives Anyhow Anything anything_calm
        (λ row t. Any (HasRole p u row.role) t.members)
        (one_row r, s)
role_read p u s none h = tt
role_read p u s (some r) h = (tt, found-HasRole p u s.members r h)

membership-HasRole :
    (p u : Uuid)
    → Triple Anyhow Anything Anything (membership p u) (λ role s. Any (HasRole p u role) s.members)
unfolding membership get_membership
membership-HasRole p u =
    bind-Triple Anyhow Anything anything_calm Anything
      (λ row s. Any (HasRole p u row.role) s.members) _
      (on_error (missing not_a_member) (query (get_membership p u))) (λ row. return row.role)
      (on_error-Triple Anyhow Anything anything_calm Anything _ (missing not_a_member) _ (
        query-Triple Anyhow Anything anything_calm Anything _ (get_membership p u) (λ _ _ _ _ _. tt)
          (λ s _ _. role_read p u s (find (is_member p u) s.members) refl)))
      (λ row.
        return-Triple Anyhow Anything anything_calm _ (λ role s. Any (HasRole p u role) s.members)
          row.role (λ s h. h))

module _ (parse_uuid : String → Option Uuid) (identity : Option Uuid) (header : String) where
  abbrev Scoped : Org → Store → Type 0
  Scoped = IsMemberScope parse_uuid identity header

  scoped :
      (user p : Uuid)
      → identity ≡ some user
      → parse_uuid (trim_space header) ≡ some p
      → Triple Anyhow Anything Anything
          (membership p user >>= λ role. return (record { provider_id = p; role = role }))
          Scoped
  scoped user p e h =
      bind-Triple Anyhow Anything anything_calm Anything
        (λ role s. Any (HasRole p user role) s.members) Scoped (membership p user)
        (λ role. return (record { provider_id = p; role = role })) (membership-HasRole p user)
        (λ role.
          return-Triple Anyhow Anything anything_calm (λ s. Any (HasRole p user role) s.members)
            Scoped (record { provider_id = p; role = role })
            (λ s m. record { user = user; authenticated = e; selected = h; member = m }))

  require_org-Scoped :
      Triple Anyhow Anything Anything (require_org parse_uuid identity header) Scoped
  unfolding require_org must_identity
  require_org-Scoped =
      let unset = validation "x-organization-id must be a UUID" in
      let missing_header = guard (not (text_eq (trim_space header) "")) org_required in
      bind-Triple Anyhow Anything anything_calm Anything
        (λ user s. (must_identity identity ≡ ok user) × Unit {0}) Scoped
        (lift (must_identity identity)) _
        (lift-Triple Anyhow Anything anything_calm Anything (must_identity identity))
        (λ user w i e.
          seq-Triple Anyhow Anything anything_calm Anything Anything Scoped missing_header _
            (mono-Triple Anyhow Anything anything_calm Anything _ (λ _. Anything) missing_header
              (λ _ s _. tt) (guard-Triple Anyhow Anything anything_calm Anything _ org_required))
            (bind-Triple Anyhow Anything anything_calm Anything
              (λ p s. (in_context unset (parse_uuid (trim_space header)) ≡ ok p) × Unit {0}) Scoped
              (lift (in_context unset (parse_uuid (trim_space header)))) _
              (lift-Triple Anyhow Anything anything_calm Anything _)
              (λ p v j h.
                scoped user p (in_context-some _ identity user e.0)
                  (in_context-some unset (parse_uuid (trim_space header)) p h.0) v j tt))
            w i tt)

-- When `RequireOrg` lets a request through, its scope is the organization that the header names, and
-- the table of members has a row for that organization and the authenticated caller with the scope's
-- role, in the store as the last statement saw it, whatever other sessions wrote meanwhile.
pub require_org-IsMemberScope :
    (parse_uuid : String → Option Uuid) (identity : Option Uuid) (header : String) (w : World Store)
    → Leaves (IsMemberScope parse_uuid identity header) (require_org parse_uuid identity header w)
require_org-IsMemberScope parse_uuid identity header =
    Triple-Leaves (IsMemberScope parse_uuid identity header)
      (require_org parse_uuid identity header) (require_org-Scoped parse_uuid identity header)

guarded-ok :
    (b : Bool) (e : Error) (o scope : Org) (w : World Store)
    → ((guard b e >> return o) w).0 ≡ ok scope
    → (b ≡ true) × (o ≡ scope)
guarded-ok true e o scope w h = (refl, cc)
guarded-ok false e o scope w h = absurd (cc)

-- Who may act where a role is asked for: an owner anywhere, a manager where a manager or a member of
-- staff may, staff where staff may; and each of the three where the text that is asked for is no role.
pub data MayActAs : Role → Role → Type 0 where
  owner_anywhere : (want : Role) → MayActAs owner want
  admin_as_admin : MayActAs admin admin
  admin_as_staff : MayActAs admin staff
  admin_as_any : (s : String) → MayActAs admin (unknown_role s)
  staff_as_staff : MayActAs staff staff
  staff_as_any : (s : String) → MayActAs staff (unknown_role s)

role_of_rank : (have want : Role) → role_at_least have want ≡ true → MayActAs have want
unfolding role_at_least role_rank
role_of_rank owner want h = owner_anywhere want
role_of_rank admin owner h = absurd (cc)
role_of_rank admin admin h = admin_as_admin
role_of_rank admin staff h = admin_as_staff
role_of_rank admin (unknown_role s) h = admin_as_any s
role_of_rank staff owner h = absurd (cc)
role_of_rank staff admin h = absurd (cc)
role_of_rank staff staff h = staff_as_staff
role_of_rank staff (unknown_role s) h = staff_as_any s
role_of_rank (unknown_role s) want h = absurd (ground arith)

rank_of_role : {have want : Role} → MayActAs have want → role_at_least have want ≡ true
unfolding role_at_least role_rank
rank_of_role (owner_anywhere owner) = refl
rank_of_role (owner_anywhere admin) = refl
rank_of_role (owner_anywhere staff) = refl
rank_of_role (owner_anywhere (unknown_role s)) = refl
rank_of_role admin_as_admin = refl
rank_of_role admin_as_staff = refl
rank_of_role (admin_as_any s) = refl
rank_of_role staff_as_staff = refl
rank_of_role (staff_as_any s) = refl

-- `RequireOrgRole` lets a request through with a scope exactly where the request has that scope and
-- its role may act where the minimum is asked for: it is one of the three roles and, in the order
-- owner, admin, staff, not behind the minimum.
pub require_org_role_iff :
    (minimum : Role) (org : Option Org) (scope : Org) (w : World Store)
    → ((require_org_role minimum org w).0 ≡ ok scope)
      ↔ ((org ≡ some scope) × MayActAs scope.role minimum)
unfolding require_org_role must_org role_at_least
require_org_role_iff minimum none scope w = (λ h. absurd (cc), λ h. absurd (cc))
require_org_role_iff minimum (some o) scope w =
    let refusal = forbidden "Your role does not allow that action" in
    (
      λ h.
          let (t, same) = guarded-ok (role_at_least o.role minimum) refusal o scope w h in
          subst (λ q. (some o ≡ some q) × MayActAs q.role minimum) same
            (refl, role_of_rank o.role minimum t),
      λ h.
          let same : o ≡ scope = cc in
          subst (λ q. ((guard (role_at_least q.role minimum) refusal >> return q) w).0 ≡ ok scope)
            (sym same) (rw (rank_of_role h.1) refl),
    )
