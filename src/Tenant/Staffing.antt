-- ===== src/Tenant/Staffing.antt =====
-- No provider loses its last owner to `UpdateMemberRole` and `RemoveMember`
-- (internal/tenant/service.go), as long as other sessions take no owner's role away meanwhile.
use nearby_backend.Prelude.{◌≡◌, none, List, [], ◌∷◌, All, subst, sym, get_or}
use nearby_backend.Platform.Database.{World, Outcome, ok, err}
use nearby_backend.Platform.Facts.{Stands, After}
use nearby_backend.Accounts.Tables.{Uuid, Role, Store}
use nearby_backend.Tenant.Members.{update_member_role, remove_member}
use nearby_backend.Tenant.Owners.{IsLoyal, IsOwned, Nothing, update-Holds, remove-Holds}

-- A call that changes who works for a provider.
pub data StaffCall : Type 0 where
  assign : Uuid → Uuid → Role → StaffCall
  dismiss : Uuid → Uuid → StaffCall

unfoldable pub manage : StaffCall → World Store → World Store
unfolding update_member_role remove_member
manage (assign q u role) w = (update_member_role q u role w).1
manage (dismiss q u) w = (remove_member q u w).1

-- The calls of one session, in order, whatever each of them answers.
unfoldable pub manage_all : List StaffCall → World Store → World Store
unfolding manage
manage_all [] w = w
manage_all (c ∷ cs) w = manage_all cs (manage c w)

module _ (p : Uuid) where
  after :
      {A : Type 0} (r : Outcome A × World Store)
      → After IsLoyal (IsOwned p) (λ _. Nothing p) r
      → Stands IsLoyal (IsOwned p) r.1
  after (ok a, w) h = h.0
  after (err e, w) h = h

  manage-Stands :
      (c : StaffCall) (w : World Store)
      → Stands IsLoyal (IsOwned p) w
      → Stands IsLoyal (IsOwned p) (manage c w)
  unfolding manage
  manage-Stands (assign q u role) w h =
      after (update_member_role q u role w) (update-Holds p q u role w h tt)
  manage-Stands (dismiss q u) w h = after (remove_member q u w) (remove-Holds p q u w h tt)

  manage_all-Stands :
      (cs : List StaffCall) (w : World Store)
      → Stands IsLoyal (IsOwned p) w
      → Stands IsLoyal (IsOwned p) (manage_all cs w)
  unfolding manage_all
  manage_all-Stands [] w h = h
  manage_all-Stands (c ∷ cs) w h = manage_all-Stands cs (manage c w) (manage-Stands c w h)

-- A provider that has an owner has one after any calls of `UpdateMemberRole` and `RemoveMember`, for
-- any providers and members, whatever these answer and whichever of their statements fail, if the
-- table had one row for each key, no transaction of this session is open, and what the other sessions
-- write in between keeps one row for each key and leaves every owner an owner.
pub manage_all-IsOwned :
    (p : Uuid) (cs : List StaffCall) (w : World Store)
    → w.committed ≡ none
    → IsOwned p w.store
    → All (λ t. IsLoyal t.others) w.turns
    → IsOwned p (manage_all cs w).store
manage_all-IsOwned p cs w e h l =
    (manage_all-Stands p cs w (record {
      holds = h;
      undone = subst (λ c. IsOwned p (get_or c w.store)) (sym e) h;
      turns = l;
    })).holds
