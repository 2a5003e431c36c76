-- ===== src/Tenant/Hired.antt =====
-- What `CreateMember` (internal/tenant/service.go) grants.
use nearby_backend.Prelude.{
  ℕ, ◌≡◌, refl, sym, subst, String, Bool, Option, none, some, ◌⊎◌, inl, inr, All,
}
use nearby_backend.Prelude.Text.{trim_space}
use nearby_backend.Platform.Errors.{Error}
use nearby_backend.Platform.Database.{
  caused, Outcome, ok, err, World, M, ◌>>=◌, ◌>>◌, return, guard, lift, or_internal, in_tx,
  rand_int,
}
use nearby_backend.Platform.Facts.{
  Stands, After, Leaves, After-Leaves, Anything, bind-Triple, seq-Triple, gate-Triple, lift-Triple,
  return-Triple, in_tx-Triple,
}
use nearby_backend.Platform.Steady.{
  rand_int-Steady, bind-Steady, return-Steady, seq-Steady, guard-Steady, on_error-Steady,
}
use nearby_backend.Accounts.Tables.{Uuid, Role, owner, admin, staff, unknown_role, Codec, Store}
use nearby_backend.Auth.Accounts.{normalize_email, validate_email, validate_password, hash_password}
use nearby_backend.Tenant.Models.{Member}
use nearby_backend.Tenant.Hiring.{
  CreateMemberInput, check_hired_role, choose_password, enroll, hire, create_member,
}
use nearby_backend.Tenant.Placement.{
  HasAccount, HasMember, IsKind, calm, Holds, Free, IsPlaced, IsPlaced-IsRespected, enroll-Holds,
}

-- The tables have a membership of this provider in the role that was asked for, which is not the
-- owner's, and its user's account with the address that was given; the answer names both. No password
-- goes back that the caller chose.
pub record IsHire (codec : Codec) (provider_id : Uuid) (input : CreateMemberInput)
    (answer : Member × String) (s : Store) : Type 0 where
  pub member :
      HasMember
        (record { provider_id = provider_id; user_id = answer.0.user_id; role = input.role })
        s
  pub account : HasAccount answer.0.user_id (codec.sql_lower (normalize_email codec input.email)) s
  pub provider : answer.0.provider_id ≡ provider_id
  pub role : answer.0.role ≡ input.role
  pub modest : (input.role ≡ admin) ⊎ (input.role ≡ staff)
  pub secret : (input.password ≡ none) ⊎ (answer.1 ≡ "")

hired_role : (role : Role) → check_hired_role role ≡ ok tt → (role ≡ admin) ⊎ (role ≡ staff)
unfolding check_hired_role
hired_role admin h = inl refl
hired_role staff h = inr refl
hired_role owner h = absurd (cc)
hired_role (unknown_role s) h = absurd (cc)

bind-Free :
    {A B : Type 0} (m : M Store A) (f : A → M Store B)
    → Free m
    → ((a : A) → Free (f a))
    → Free (m >>= f)
bind-Free = bind-Steady IsKind Anything calm Anything calm

seq-Free : {B : Type 0} (m : M Store (Unit {0})) (k : M Store B) → Free m → Free k → Free (m >> k)
seq-Free = seq-Steady IsKind Anything calm Anything calm

internal-Free : {A : Type 0} (m : M Store A) → Free m → Free (or_internal m)
internal-Free = on_error-Steady IsKind Anything calm Anything calm caused

guard-Free : (t : Bool) (e : Error) → Free (guard t e)
guard-Free = guard-Steady IsKind Anything calm Anything calm

return-Free : {A : Type 0} (a : A) → Free (return a)
return-Free = return-Steady IsKind Anything calm Anything calm

draw-Free : (n : ℕ) → Free (rand_int n)
draw-Free = rand_int-Steady IsKind Anything calm Anything calm

validate_email-Free : (codec : Codec) (email : String) → Free (validate_email codec email)
unfolding validate_email
validate_email-Free codec email = search (seq-Free, guard-Free)

hash_password-Free :
    (codec : Codec) (password : String) → Free (or_internal (hash_password codec password))
unfolding hash_password
hash_password-Free codec password = search (internal-Free, bind-Free, draw-Free, return-Free)

-- The generator of passwords makes no statement.
silent-Free :
    (generate : M Store String)
    → ((w : World Store) → (generate w).1.turns ≡ w.turns)
    → Free (or_internal generate)
silent-Free generate silent = internal-Free generate (λ w i p. after w i (generate w) (silent w))
  where
    after :
        (w : World Store)
        → Stands IsKind Anything w
        → (r : Outcome String × World Store) → r.1.turns ≡ w.turns
        → After IsKind Anything (λ _. Anything) r
    after w i (ok a, v) e = (
      record {
        holds = tt;
        undone = tt;
        turns = subst (All (λ t. IsKind t.others)) (sym e) i.turns;
      },
      tt,
    )
    after w i (err x, v) e = record {
      holds = tt;
      undone = tt;
      turns = subst (All (λ t. IsKind t.others)) (sym e) i.turns;
    }

module _ (codec : Codec) (generate : M Store String)
    (silent : (w : World Store) → (generate w).1.turns ≡ w.turns) (provider_id : Uuid)
    (input : CreateMemberInput) where
  abbrev IsSecret : Option String → String × String → Store → Type 0
  IsSecret asked chosen s = (asked ≡ none) ⊎ (chosen.1 ≡ "")

  choose_password-Holds :
      (asked : Option String) → Holds Anything (choose_password generate asked) (IsSecret asked)
  unfolding choose_password validate_password
  choose_password-Holds none =
      bind-Triple IsKind Anything calm Anything (λ _. Anything) (IsSecret none)
        (or_internal generate) _ (silent-Free generate silent)
        (λ made.
          return-Triple IsKind Anything calm Anything (IsSecret none) (made, made)
            (λ _ _. inl refl))
  choose_password-Holds (some given) =
      gate-Triple IsKind Anything calm Anything (IsSecret (some given)) _ _ (return (given, ""))
        (λ _.
          return-Triple IsKind Anything calm Anything (IsSecret (some given)) (given, "")
            (λ _ _. inr refl))

  abbrev Hire : Member × String → Store → Type 0
  Hire = IsHire codec provider_id input

  hire-Holds :
      (name : String)
      → (input.role ≡ admin) ⊎ (input.role ≡ staff)
      → Holds Anything
          (hire codec generate provider_id input name (normalize_email codec input.email))
          Hire
  unfolding hire
  hire-Holds name modest =
      let email = normalize_email codec input.email in
      let Placed = IsPlaced codec provider_id input email in
      bind-Triple IsKind Anything calm Anything (IsSecret input.password) Hire
        (choose_password generate input.password) _ (choose_password-Holds input.password)
        (λ chosen w stands secret.
          bind-Triple IsKind Anything calm Anything (λ _. Anything) Hire
            (or_internal (hash_password codec chosen.0)) _ (hash_password-Free codec chosen.0)
            (λ hash.
              bind-Triple IsKind Anything calm Anything Placed Hire
                (in_tx (enroll codec provider_id input name email hash))
                (λ member. return (member, chosen.1))
                (in_tx-Triple IsKind Anything calm Anything Placed
                  (enroll codec provider_id input name email hash) calm
                  (IsPlaced-IsRespected codec provider_id input email)
                  (enroll-Holds codec provider_id input email name hash))
                (λ member.
                  return-Triple IsKind Anything calm (Placed member) Hire (member, chosen.1)
                    (λ s (a, b, c, d). record {
                      member = a;
                      account = b;
                      provider = c;
                      role = d;
                      modest = modest;
                      secret = secret;
                    })))
            w stands tt)

  create_member-Holds : Holds Anything (create_member codec generate provider_id input) Hire
  unfolding create_member
  create_member-Holds =
      let email = normalize_email codec input.email in
      let rest = hire codec generate provider_id input (trim_space input.name) email in
      gate-Triple IsKind Anything calm Anything Hire _ _
        (validate_email codec email >> (lift (check_hired_role input.role) >> rest))
        (λ _.
          seq-Triple IsKind Anything calm Anything Anything Hire (validate_email codec email)
            (lift (check_hired_role input.role) >> rest) (validate_email-Free codec email)
            (bind-Triple IsKind Anything calm Anything
              (λ u s. (check_hired_role input.role ≡ ok u) × Unit {0}) Hire
              (lift (check_hired_role input.role)) (λ _. rest)
              (lift-Triple IsKind Anything calm Anything (check_hired_role input.role))
              (λ u w stands e.
                hire-Holds (trim_space input.name) (hired_role input.role e.0) w stands tt)))

-- When `CreateMember` answers, the tables have a membership of this provider in the role that was
-- asked for, which is admin or staff, never owner, and the account of its user with the normalized
-- address, and the answer is that membership. A password that the caller chose is not handed back. The
-- other sessions may write anything between the statements but take neither an account, with its
-- address, nor a membership, with its role, away. The generator of passwords makes no statement.
pub create_member-IsHire :
    (codec : Codec) (generate : M Store String) (provider_id : Uuid) (input : CreateMemberInput)
    (w : World Store)
    → ((v : World Store) → (generate v).1.turns ≡ v.turns)
    → All (λ t. IsKind t.others) w.turns
    → Leaves (IsHire codec provider_id input) (create_member codec generate provider_id input w)
create_member-IsHire codec generate provider_id input w silent kind =
    After-Leaves IsKind Anything (IsHire codec provider_id input)
      (create_member codec generate provider_id input w)
      (create_member-Holds codec generate silent provider_id input w
        (record { holds = tt; undone = tt; turns = kind }) tt)
