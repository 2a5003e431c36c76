-- ===== src/Tenant/Tests.antt =====
-- The theorems of the tenant package at a concrete organization.
use nearby_backend.Prelude.{
  Bool, ◌≡◌, ◌↔◌, refl, inl, inr, Option, none, some, String, List, [], ◌∷◌, map, find, arith,
}
use nearby_backend.Prelude.Text.{text_eq, trim_space}
use nearby_backend.Platform.Database.{other, ok, return, Turn, World}
use nearby_backend.Platform.Facts.{Leaves}
use nearby_backend.Accounts.Tables.{
  Uuid, owner, admin, staff, MemberRow, InvitationRow, Store, Clock, Codec,
}
use nearby_backend.Tenant.Models.{is_owner, valid_role}
use nearby_backend.Tenant.Queries.{with_role}
use nearby_backend.Tenant.Invitations.{accept_invitation}
use nearby_backend.Tenant.Access.{Org, require_org, require_org_role}
use nearby_backend.Tenant.Roster.{Owns, map-IsKeyed, Owns-promoted}
use nearby_backend.Tenant.Owners.{IsLoyal, IsOwned}
use nearby_backend.Tenant.Staffing.{assign, dismiss, manage_all, manage_all-IsOwned}
use nearby_backend.Tenant.Joining.{IsInvited, IsHonest, accept_invitation-IsInvited}
use nearby_backend.Tenant.Hiring.{CreateMemberInput, create_member}
use nearby_backend.Tenant.Placement.{IsKind}
use nearby_backend.Tenant.Hired.{IsHire, create_member-IsHire}
use nearby_backend.Tenant.Demotion.{alone, IsOpen, accept_invitation-demotes}
use nearby_backend.Tenant.Scope.{
  MayActAs, IsMemberScope, require_org-IsMemberScope, require_org_role_iff,
}

abbrev codec : Codec
codec = record {
  to_lower = λ s. s;
  equal_fold = text_eq;
  sql_lower = λ s. s;
  sha256 = λ s. 7;
  base64 = λ n. "token";
  is_address = λ s. Bool.true;
  argon2 = λ salt s. s;
  verify_password = λ s hash. some (text_eq s hash);
}

abbrev clock : Clock
clock = record { now = 100; database = 101 }

abbrev chief : MemberRow
chief = record { provider_id = 5; user_id = 1; role = owner }

abbrev partner : MemberRow
partner = record { provider_id = 5; user_id = 2; role = owner }

abbrev clerk : MemberRow
clerk = record { provider_id = 5; user_id = 3; role = staff }

abbrev offer : InvitationRow
offer = record {
  id = 9;
  provider_id = 5;
  email = "chief@shop.et";
  role = staff;
  token_hash = 7;
  expires_at = 500;
  accepted_at = none;
}

abbrev shop : List MemberRow → Store
shop members = record {
  users = [];
  providers = [];
  members = members;
  invitations = offer ∷ [];
  refresh_tokens = [];
  codes = [];
  next_id = 10;
}

-- Between two statements the clerk is made an owner, and one statement fails.
abbrev turns : List (Turn Store)
turns =
    record { others = λ s. s; fault = none }
    ∷ record {
      others = λ s. record s { members = map (with_role 5 3 owner) s.members };
      fault = none;
    }
    ∷ record { others = λ s. s; fault = some other }
    ∷ []

abbrev shop_world : World Store
shop_world = record {
  store = shop (chief ∷ partner ∷ clerk ∷ []);
  turns = turns;
  committed = none;
  draws = λ n. some n;
  drawn = 0;
}

same_rows-IsLoyal : IsLoyal (λ s. s)
same_rows-IsLoyal = record { keyed = λ s h. h; owners = λ p v s k o. o }

promotion-IsLoyal : IsLoyal (λ s. record s { members = map (with_role 5 3 owner) s.members })
unfolding is_owner
promotion-IsLoyal = record {
  keyed = λ s h. map-IsKeyed 5 3 owner s.members h;
  owners = λ p v s k o. Owns-promoted 5 3 owner p v s.members refl o;
}

shop-IsOwned : IsOwned 5 shop_world.store
shop-IsOwned = record {
  keyed = ((refl, (refl, tt)), ((refl, tt), (tt, tt)));
  user = 1;
  owns = inl (refl, refl);
}

manage_all-IsOwned_example :
    IsOwned 5
      (manage_all
        (assign 5 1 staff ∷ dismiss 5 2 ∷ dismiss 5 3 ∷ assign 5 3 admin ∷ [])
        shop_world).store
manage_all-IsOwned_example =
    manage_all-IsOwned 5 (assign 5 1 staff ∷ dismiss 5 2 ∷ dismiss 5 3 ∷ assign 5 3 admin ∷ [])
      shop_world refl shop-IsOwned (same_rows-IsLoyal, (promotion-IsLoyal, (same_rows-IsLoyal, tt)))

promotion-IsHonest : IsHonest (λ s. record s { members = map (with_role 5 3 owner) s.members })
promotion-IsHonest = record { numbered = λ s h. h; agrees = λ inv s h. h; taken = λ inv s h. h }

abbrev offer_world : World Store
offer_world = record {
  store = shop (partner ∷ clerk ∷ []);
  turns =
      record {
        others = λ s. record s { members = map (with_role 5 3 owner) s.members };
        fault = none;
      }
      ∷ [];
  committed = none;
  draws = λ n. some n;
  drawn = 0;
}

accept_invitation-IsInvited_example :
    Leaves
      (IsInvited codec clock " token " 1 "chief@shop.et")
      (accept_invitation codec clock " token " 1 "chief@shop.et" offer_world)
accept_invitation-IsInvited_example =
    accept_invitation-IsInvited codec clock " token " 1 "chief@shop.et" offer_world refl (tt, tt)
      (promotion-IsHonest, tt)

offer-IsOpen : IsOpen codec clock " token " "chief@shop.et" (shop (chief ∷ clerk ∷ [])) offer
unfolding trim_space find valid_role
offer-IsOpen = record {
  given = refl;
  found = refl;
  pending = refl;
  in_time = refl;
  not_expired = refl;
  addressed = refl;
  known_role = refl;
}

only_chief : (v : Uuid) → Owns 5 v (chief ∷ clerk ∷ []) → v ≡ 1
only_chief v (inl o) = ground arith
only_chief v (inr (inl o)) = absurd (cc)
only_chief v (inr (inr o)) = elim o [ ]

accept_invitation-demotes_example : ¬ (
    Owns 5 1
      (accept_invitation codec clock " token " 1 "chief@shop.et"
        (alone (shop (chief ∷ clerk ∷ [])))).1.store.members)
unfolding is_owner
accept_invitation-demotes_example =
    accept_invitation-demotes codec clock " token " 1 "chief@shop.et" (shop (chief ∷ clerk ∷ []))
      offer offer-IsOpen refl only_chief 1

abbrev parse_uuid : String → Option Uuid
parse_uuid s = some 5

require_org-IsMemberScope_example :
    Leaves
      (IsMemberScope parse_uuid (some 2) " 5 ")
      (require_org parse_uuid (some 2) " 5 " shop_world)
require_org-IsMemberScope_example = require_org-IsMemberScope parse_uuid (some 2) " 5 " shop_world

abbrev scope : Org
scope = record { provider_id = 5; role = owner }

require_org_role_iff_example :
    ((require_org_role admin (some scope) shop_world).0 ≡ ok scope)
    ↔ ((some scope ≡ some scope) × MayActAs scope.role admin)
require_org_role_iff_example = require_org_role_iff admin (some scope) scope shop_world

abbrev waiter : CreateMemberInput
waiter = record {
  name = " Sara ";
  email = "sara@shop.et";
  phone = none;
  password = some "long enough";
  role = staff;
}

-- Before the first statement another session hires a manager elsewhere.
abbrev elsewhere : Store → Store
elsewhere s = record s {
  members = record { provider_id = 6; user_id = 1; role = admin } ∷ s.members;
}

elsewhere-IsKind : IsKind elsewhere
elsewhere-IsKind = record { accounts = λ id email s h. h; members = λ row s h. inr h }

abbrev hiring_world : World Store
hiring_world = record (alone (shop (chief ∷ []))) {
  turns = record { others = elsewhere; fault = none } ∷ [];
}

create_member-IsHire_example :
    Leaves (IsHire codec 5 waiter) (create_member codec (return "made up") 5 waiter hiring_world)
create_member-IsHire_example =
    create_member-IsHire codec (return "made up") 5 waiter hiring_world (λ v. refl)
      (elsewhere-IsKind, tt)
