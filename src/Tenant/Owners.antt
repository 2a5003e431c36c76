-- ===== src/Tenant/Owners.antt =====
-- `UpdateMemberRole` and `RemoveMember` (internal/tenant/service.go), statement by statement: what is
-- known of a provider's owners when the row is written.
use nearby_backend.Prelude.{
  ℕ, ◌<◌, ◌≡◌, refl, subst, sym, ◌⊎◌, inl, inr, Bool, true, false, ◌&&◌, not, Option, none, some,
  ltb, ◌==◌, find, length, select, and-split, kept-set, ltb→lt, ==_iff, arith, Bool-cases,
}
use nearby_backend.Platform.Errors.{Error, conflict, not_found, validation}
use nearby_backend.Platform.Database.{
  caused, missing, M, return, guard, on_error, or_internal, query, in_tx,
}
use nearby_backend.Platform.Facts.{
  IsRespected, Triple, Always, Gives, bind-Triple, seq-Triple, on_error-Triple, guard-Triple,
  return-Triple, mono-Triple, query-Triple, in_tx-Triple,
}
use nearby_backend.Accounts.Tables.{Uuid, Role, MemberRow, Store, one_row}
use nearby_backend.Tenant.Models.{valid_role, is_owner}
use nearby_backend.Tenant.Queries.{
  is_member, get_membership, count_owners, set_role, set_member_role, delete_member, is_other,
  is_owner_of,
}
use nearby_backend.Tenant.Members.{
  member_of, keep_an_owner, change_role, update_member_role, detach, remove_member,
}
use nearby_backend.Tenant.Roster.{
  IsKeyed, Owns, Spares, map-IsKeyed, select-IsKeyed, found-owner, Owns-map, Owns-promoted,
  Owns-deleted, second_owner,
}

-- A write of another session that leaves every owner an owner.
pub record IsLoyal (f : Store → Store) : Type 0 where
  pub keyed : (s : Store) → IsKeyed s.members → IsKeyed (f s).members
  pub owners :
      (p v : Uuid) (s : Store) → IsKeyed s.members → Owns p v s.members → Owns p v (f s).members

-- The provider has an owner.
pub record IsOwned (p : Uuid) (s : Store) : Type 0 where
  pub keyed : IsKeyed s.members
  pub user : Uuid
  pub owns : Owns p user s.members

module _ (p : Uuid) where
  pub calm : IsRespected IsLoyal (IsOwned p) (IsOwned p)
  calm f l s i h = record {
    keyed = l.keyed s h.keyed;
    user = h.user;
    owns = l.owners p h.user s h.keyed h.owns;
  }

  abbrev pub Holds : {A : Type 0} → (Store → Type 0) → M Store A → (A → Store → Type 0) → Type 0
  Holds = Triple IsLoyal (IsOwned p)

  abbrev pub Nothing : Store → Type 0
  Nothing = Always IsLoyal (IsOwned p)

  module _ (q u : Uuid) where
    -- A write of the row (q, u) may go on: either its flag is set, or p has another owner.
    abbrev MayGo : Bool → Store → Type 0
    MayGo b s = (b ≡ true) ⊎ ((v : Uuid) × Spares q u p v × Owns p v s.members)

    MayGo-IsRespected : (b : Bool) → IsRespected IsLoyal (IsOwned p) (MayGo b)
    MayGo-IsRespected b f l s i (inl h) = inl h
    MayGo-IsRespected b f l s i (inr (v, d, o)) = inr (v, d, l.owners p v s i.keyed o)

    same_owner : {s : Store} (i : IsOwned p s) → (q == p && u == i.user) ≡ true → Owns q u s.members
    same_owner {s = s} i same =
        let (here, him) = and-split (q == p) (u == i.user) same in
        subst (λ a. Owns a u s.members) (sym ((==_iff q p).0 here))
          (subst (λ b. Owns p b s.members) (sym ((==_iff u i.user).0 him)) i.owns)

    -- The row that is read is an owner's, or p has another owner.
    read_row :
        (s : Store)
        → IsOwned p s
        → (r : Option MemberRow) → find (is_member q u) s.members ≡ r
        → Gives IsLoyal (IsOwned p) calm (λ row t. MayGo (is_owner row.role) t) (one_row r, s)
    read_row s i none h = tt
    read_row s i (some row) h = (
      i,
      elim (Bool-cases (q == p && u == i.user)) [
        | inl same ↦ inl (found-owner q u s.members row i.keyed (same_owner i same) h)
        | inr d ↦ inr (i.user, d, i.owns)
      ],
    )

    get-Holds : Holds Nothing (query (get_membership q u)) (λ row s. MayGo (is_owner row.role) s)
    unfolding get_membership
    get-Holds =
        query-Triple IsLoyal (IsOwned p) calm Nothing (λ row s. MayGo (is_owner row.role) s)
          (get_membership q u) (λ _ _ _ _ _. tt)
          (λ s i _. read_row s i (find (is_member q u) s.members) refl)

    -- Two owners of q: p has one that the row (q, u) is not.
    counted :
        (n : ℕ) (s : Store)
        → IsOwned p s
        → length (select (is_owner_of q) s.members) ≡ n
        → ltb 1 n ≡ true
        → (v : Uuid) × Spares q u p v × Owns p v s.members
    counted n s i h t = elim (Bool-cases (q == p)) [
      | inr other ↦ (i.user, ground arith, i.owns)
      | inl same ↦
          subst (λ a. (v : Uuid) × Spares q u a v × Owns a v s.members) ((==_iff q p).0 same)
            (second_owner q u s.members i.keyed (subst (λ k. 1 < k) (sym h) (ltb→lt 1 n t)))
    ]

    may_stay : (s : Store) {c d : Bool} → MayGo c s → (c ≡ true → d ≡ true) → MayGo d s
    may_stay s (inl e) f = inl (f e)
    may_stay s (inr o) f = inr o

    count-Holds :
        (c : Bool)
        → Holds
            (MayGo c)
            (query (count_owners q))
            (λ n s. ltb 1 n ≡ true → (v : Uuid) × Spares q u p v × Owns p v s.members)
    unfolding count_owners
    count-Holds c =
        query-Triple IsLoyal (IsOwned p) calm (MayGo c) _ (count_owners q) (MayGo-IsRespected c)
          (λ s i _. (i, λ t. counted _ s i refl t))

    -- An owner's role is taken away only when there is another owner.
    keep_an_owner-Holds :
        (c d leaves : Bool)
        → (leaves ≡ false → c ≡ true → d ≡ true)
        → Holds (MayGo c) (keep_an_owner q leaves) (λ _. MayGo d)
    unfolding keep_an_owner
    keep_an_owner-Holds c d false h =
        return-Triple IsLoyal (IsOwned p) calm (MayGo c) (λ _. MayGo d) tt
          (λ s m. may_stay s m (h refl))
    keep_an_owner-Holds c d true h =
        let lot : ℕ → Store → Type 0 =
          λ n s. ltb 1 n ≡ true → (v : Uuid) × Spares q u p v × Owns p v s.members in
        bind-Triple IsLoyal (IsOwned p) calm (MayGo c) lot (λ _. MayGo d)
          (or_internal (query (count_owners q)))
          (λ owners. guard (ltb 1 owners) (conflict "A provider must keep at least one owner"))
          (on_error-Triple IsLoyal (IsOwned p) calm (MayGo c) lot caused (query (count_owners q))
            (count-Holds c))
          (λ owners.
            mono-Triple IsLoyal (IsOwned p) calm (lot owners) _ (λ _. MayGo d)
              (guard (ltb 1 owners) (conflict "A provider must keep at least one owner"))
              (λ _ s e. inr (e.1 e.0))
              (guard-Triple IsLoyal (IsOwned p) calm (lot owners) (ltb 1 owners)
                (conflict "A provider must keep at least one owner")))

    -- The UPDATE of the row (q, u).
    role_set :
        (role : Role) (s : Store) (r : Option MemberRow) (valid : Bool)
        → IsOwned p s
        → MayGo (is_owner role) s
        → Gives IsLoyal (IsOwned p) calm (λ _ _. Unit {0}) (set_role q u role s r valid)
    role_set role s none valid i m = tt
    role_set role s (some r) false i m = tt
    role_set role s (some r) true i (inl e) = (
      record {
        keyed = map-IsKeyed q u role s.members i.keyed;
        user = i.user;
        owns = Owns-promoted q u role p i.user s.members e i.owns;
      },
      tt,
    )
    role_set role s (some r) true i (inr (v, d, o)) = (
      record {
        keyed = map-IsKeyed q u role s.members i.keyed;
        user = v;
        owns = Owns-map q u role p v s.members d o;
      },
      tt,
    )

    set-Holds :
        (role : Role)
        → Holds (MayGo (is_owner role)) (query (set_member_role q u role)) (λ _. Nothing)
    unfolding set_member_role
    set-Holds role =
        query-Triple IsLoyal (IsOwned p) calm (MayGo (is_owner role)) _ (set_member_role q u role)
          (MayGo-IsRespected (is_owner role)) (λ s i m. role_set role s _ (valid_role role) i m)

    row_deleted :
        (s : Store)
        → IsOwned p s
        → MayGo false s
        → Gives IsLoyal (IsOwned p) calm (λ _ _. Unit {0}) (delete_member q u s)
    unfolding delete_member
    row_deleted s i (inl e) = absurd (cc)
    row_deleted s i (inr (v, d, o)) = (
      record {
        keyed = select-IsKeyed (is_other q u) s.members i.keyed;
        user = v;
        owns = Owns-deleted q u p v s.members d o;
      },
      tt,
    )

    delete-Holds : Holds (MayGo false) (query (delete_member q u)) (λ _. Nothing)
    delete-Holds =
        query-Triple IsLoyal (IsOwned p) calm (MayGo false) _ (delete_member q u)
          (MayGo-IsRespected false) row_deleted

    quiet_return : {A : Type 0} (a : A) → Holds Nothing (return a) (λ _. Nothing)
    quiet_return a = return-Triple IsLoyal (IsOwned p) calm Nothing (λ _. Nothing) a (λ s h. h)

    quiet_guard : (t : Bool) (e : Error) → Holds Nothing (guard t e) (λ _. Nothing)
    quiet_guard t e =
        mono-Triple IsLoyal (IsOwned p) calm Nothing _ (λ _. Nothing) (guard t e) (λ _ s h. h.1)
          (guard-Triple IsLoyal (IsOwned p) calm Nothing t e)

    change_role-Holds : (role : Role) → Holds Nothing (change_role q u role) (λ _. Nothing)
    unfolding change_role
    change_role-Holds role =
        bind-Triple IsLoyal (IsOwned p) calm Nothing (λ row s. MayGo (is_owner row.role) s)
          (λ _. Nothing) (on_error (missing (not_found "Member")) (query (get_membership q u))) _
          (on_error-Triple IsLoyal (IsOwned p) calm Nothing _ (missing (not_found "Member")) _
            get-Holds)
          (λ row.
            seq-Triple IsLoyal (IsOwned p) calm (MayGo (is_owner row.role)) (MayGo (is_owner role))
              (λ _. Nothing) (keep_an_owner q (is_owner row.role && not (is_owner role))) _
              (keep_an_owner-Holds (is_owner row.role) (is_owner role) _
                (kept-set (is_owner row.role) (is_owner role)))
              (bind-Triple IsLoyal (IsOwned p) calm (MayGo (is_owner role)) (λ _. Nothing)
                (λ _. Nothing) (or_internal (query (set_member_role q u role)))
                (λ r. return (member_of r))
                (on_error-Triple IsLoyal (IsOwned p) calm _ _ caused _ (set-Holds role))
                (λ r. quiet_return (member_of r))))

    pub update-Holds : (role : Role) → Holds Nothing (update_member_role q u role) (λ _. Nothing)
    unfolding update_member_role
    update-Holds role =
        seq-Triple IsLoyal (IsOwned p) calm Nothing Nothing (λ _. Nothing)
          (guard (valid_role role) (validation "role must be 'owner', 'admin' or 'staff'"))
          (in_tx (change_role q u role)) (quiet_guard (valid_role role) _)
          (in_tx-Triple IsLoyal (IsOwned p) calm Nothing (λ _. Nothing) (change_role q u role)
            (λ _ _ _ _ _. tt) (λ _ _ _ _ _ _. tt) (change_role-Holds role))

    detach-Holds : Holds Nothing (detach q u) (λ _. Nothing)
    unfolding detach
    detach-Holds =
        bind-Triple IsLoyal (IsOwned p) calm Nothing (λ row s. MayGo (is_owner row.role) s)
          (λ _. Nothing) (on_error (missing (not_found "Member")) (query (get_membership q u))) _
          (on_error-Triple IsLoyal (IsOwned p) calm Nothing _ (missing (not_found "Member")) _
            get-Holds)
          (λ row.
            seq-Triple IsLoyal (IsOwned p) calm (MayGo (is_owner row.role)) (MayGo false)
              (λ _. Nothing) (keep_an_owner q (is_owner row.role)) _
              (keep_an_owner-Holds (is_owner row.role) false (is_owner row.role) (λ e g. cc))
              (bind-Triple IsLoyal (IsOwned p) calm (MayGo false) (λ _. Nothing) (λ _. Nothing)
                (or_internal (query (delete_member q u)))
                (λ n. guard (not (n == 0)) (not_found "Member"))
                (on_error-Triple IsLoyal (IsOwned p) calm _ _ caused _ delete-Holds)
                (λ n. quiet_guard (not (n == 0)) _)))

    pub remove-Holds : Holds Nothing (remove_member q u) (λ _. Nothing)
    unfolding remove_member
    remove-Holds =
        in_tx-Triple IsLoyal (IsOwned p) calm Nothing (λ _. Nothing) (detach q u) (λ _ _ _ _ _. tt)
          (λ _ _ _ _ _ _. tt) detach-Holds
