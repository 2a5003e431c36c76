-- ===== src/Tenant/Placement.antt =====
-- The account and the membership that `CreateMember` (internal/tenant/service.go) writes.
use nearby_backend.Prelude.{
  ◌≡◌, refl, sym, subst, String, Bool, true, false, List, [], ◌∷◌, map, exists, inl, inr, Any,
  Bool-cases, arith,
}
use nearby_backend.Platform.Database.{caused, M, or_internal, query}
use nearby_backend.Platform.Facts.{
  IsRespected, Triple, Anything, Gives, bind-Triple, on_error-Triple, return-Triple, query-Triple,
}
use nearby_backend.Platform.Steady.{Steady}
use nearby_backend.Accounts.Tables.{Uuid, UserRow, MemberRow, Codec, Store}
use nearby_backend.Auth.Queries.{create_user, user_created}
use nearby_backend.Tenant.Models.{Member, valid_role}
use nearby_backend.Tenant.Queries.{is_member, with_role, upsert, add_member, upserted}
use nearby_backend.Tenant.Hiring.{CreateMemberInput, open_login, seat, enroll}

-- An account with this id and address, and a membership, in the tables.
abbrev pub HasAccount : Uuid → String → Store → Type 0
HasAccount id email s = Any (λ u. (u.id ≡ id) × (u.email ≡ email)) s.users

abbrev pub HasMember : MemberRow → Store → Type 0
HasMember row s = Any (λ r. r ≡ row) s.members

-- A write of another session that takes neither away.
pub record IsKind (f : Store → Store) : Type 0 where
  pub accounts :
      (id : Uuid) (email : String) (s : Store) → HasAccount id email s → HasAccount id email (f s)
  pub members : (row : MemberRow) (s : Store) → HasMember row s → HasMember row (f s)

-- After the upsert, the row is in the table.
with_role-sets :
    (row r : MemberRow)
    → is_member row.provider_id row.user_id r ≡ true
    → with_role row.provider_id row.user_id row.role r ≡ row
unfolding with_role
with_role-sets row r h = rw h (same row r (ground arith) (ground arith))
  where
    same :
        (q p : MemberRow)
        → p.provider_id ≡ q.provider_id
        → p.user_id ≡ q.user_id
        → record p { role = q.role } ≡ q
    same q p a b = cc

updated-HasRow :
    (row : MemberRow) (rs : List MemberRow)
    → exists (is_member row.provider_id row.user_id) rs ≡ true
    → Any (λ r. r ≡ row) (map (with_role row.provider_id row.user_id row.role) rs)
unfolding exists
updated-HasRow row [] e = absurd (cc)
updated-HasRow row (r ∷ rs) e = elim (Bool-cases (is_member row.provider_id row.user_id r)) [
  | inl here ↦ inl (with_role-sets row r here)
  | inr gone ↦ inr (updated-HasRow row rs (ground arith))
]

upsert-HasRow : (row : MemberRow) (rs : List MemberRow) → Any (λ r. r ≡ row) (upsert row rs)
unfolding upsert
upsert-HasRow row rs = elim (Bool-cases (exists (is_member row.provider_id row.user_id) rs)) [
  | inl e ↦ rw e (updated-HasRow row rs e)
  | inr e ↦ rw e (inl refl)
]

pub calm : IsRespected IsKind Anything Anything
calm f l s i h = tt

abbrev pub Holds : {A : Type 0} → (Store → Type 0) → M Store A → (A → Store → Type 0) → Type 0
Holds = Triple IsKind Anything

abbrev pub Free : {A : Type 0} → M Store A → Type 0
Free = Steady IsKind Anything calm Anything calm

module _ (codec : Codec) (provider_id : Uuid) (input : CreateMemberInput) (email : String) where
  abbrev address : String
  address = codec.sql_lower email

  abbrev row_of : Uuid → MemberRow
  row_of user_id = record { provider_id = provider_id; user_id = user_id; role = input.role }

  abbrev HasUser : UserRow → Store → Type 0
  HasUser user = HasAccount user.id address

  abbrev pub IsPlaced : Member → Store → Type 0
  IsPlaced m s =
      HasMember (row_of m.user_id) s
      × HasAccount m.user_id address s
      × (m.provider_id ≡ provider_id)
      × (m.role ≡ input.role)

  pub IsPlaced-IsRespected : (m : Member) → IsRespected IsKind Anything (IsPlaced m)
  IsPlaced-IsRespected m f l s i (a, b, c, d) =
      (l.members (row_of m.user_id) s a, l.accounts m.user_id address s b, c, d)

  user_created-Gives :
      (user : UserRow) (s : Store) (taken : Bool)
      → user.email ≡ address
      → Gives IsKind Anything calm HasUser (user_created user s taken)
  user_created-Gives user s true e = tt
  user_created-Gives user s false e = (tt, inl (refl, e))

  open_login-Holds :
      (name hash : String) → Holds Anything (open_login codec input name email hash) HasUser
  unfolding open_login create_user
  open_login-Holds name hash = on_error-Triple IsKind Anything calm Anything HasUser _ (query _) (
      query-Triple IsKind Anything calm Anything HasUser _ calm
        (λ s _ _. user_created-Gives _ s _ refl))

  add_member-Gives :
      (user : UserRow) (s : Store) (valid : Bool)
      → HasUser user s
      → Gives IsKind Anything calm
          (λ r t. (r ≡ row_of user.id) × HasMember (row_of user.id) t × HasUser user t)
          (upserted (row_of user.id) s valid)
  add_member-Gives user s false h = tt
  add_member-Gives user s true h = (tt, (refl, upsert-HasRow (row_of user.id) s.members, h))

  abbrev seated : UserRow → MemberRow → Member
  seated user r = record {
    provider_id = r.provider_id;
    user_id = r.user_id;
    role = r.role;
    name = user.name;
    email = user.email;
    phone = user.phone;
  }

  seat-Holds : (user : UserRow) → Holds (HasUser user) (seat provider_id input.role user) IsPlaced
  unfolding seat add_member
  seat-Holds user =
      let Added : MemberRow → Store → Type 0 =
        λ r t. (r ≡ row_of user.id) × HasMember (row_of user.id) t × HasUser user t in
      bind-Triple IsKind Anything calm (HasUser user) Added IsPlaced
        (or_internal (query (add_member (row_of user.id)))) _
        (on_error-Triple IsKind Anything calm (HasUser user) Added caused _ (
          query-Triple IsKind Anything calm (HasUser user) Added (add_member (row_of user.id))
            (λ f l s i h. l.accounts user.id address s h)
            (λ s _ h. add_member-Gives user s (valid_role input.role) h)))
        (λ r.
          return-Triple IsKind Anything calm (Added r) IsPlaced (seated user r)
            (λ s (e, a, b). subst (λ q. IsPlaced (seated user q) s) (sym e) (a, b, refl, refl)))

  pub enroll-Holds :
      (name hash : String)
      → Holds Anything (enroll codec provider_id input name email hash) IsPlaced
  unfolding enroll
  enroll-Holds name hash =
      bind-Triple IsKind Anything calm Anything HasUser IsPlaced
        (open_login codec input name email hash) (λ user. seat provider_id input.role user)
        (open_login-Holds name hash) seat-Holds
