-- ===== src/Runtime/Tenancy/Tests.antt =====
-- An organization with an owner and an admin, who takes it over in two actions.
use fct.Base.{String, ◌≡◌, refl, inl, [], ◌∷◌, lookup, arith}
use fct.Base.Text.{codes}
use fct.Runtime.Tenancy.{
  Member, State, actor_of, active_tenant, membership_of, tenant_role_for, put_role, drop_id,
  remove_member,
}
use fct.Runtime.Tenancy.Actions.{
  create_tenant, set_member_role, remove_member_named, leave_tenant, run_tenant_action,
  tenant_set_role, tenant_remove_member,
}
use fct.Runtime.Tenancy.Steps.{StepTo, live_for, run-MemberStep}
use fct.Runtime.Tenancy.Valid.{IsValid, run-IsValid}
use fct.Runtime.Tenancy.Keeps.{IsKept, IsApart, run-IsKept, run-IsApart}

abbrev ada : Member
ada = record { id = 1; tenant = 1; username = "ada"; role = "owner"; created = 0 }

abbrev bob : Member
bob = record { id = 2; tenant = 1; username = "bob"; role = "admin"; created = 0 }

abbrev club : State
club = record {
  tenants =
      record { id = 1; name = codes "Club"; slug = codes "club"; owner = "ada"; created = 0 } ∷ [];
  members = ada ∷ bob ∷ [];
  invites = [];
  next_tenant = 1;
  next_member = 2;
  next_invite = 0;
  sessions = ("s", record { actor = "bob"; tenant = 1 }) ∷ [];
  journal = [];
}

abbrev plain_hash : String → String
plain_hash t = t

club-IsValid : IsValid club
club-IsValid = record {
  unique = ((record { ids = ground arith; names = refl }, tt), (tt, tt));
  below = (
    record { id = ground arith; tenant = ground arith },
    (record { id = ground arith; tenant = ground arith }, tt),
  );
  invited = tt;
}

-- The admin makes the owner a member, and then removes the member.
takes_over :
    (run_tenant_action plain_hash "t" 9 "s"
      (remove_member_named "ada")
      (run_tenant_action plain_hash "t" 9 "s" (set_member_role "ada" "member") club).0).0.members
    ≡ bob ∷ []
unfolding run_tenant_action tenant_set_role tenant_remove_member actor_of active_tenant
    membership_of tenant_role_for put_role drop_id remove_member lookup
takes_over = refl

run-MemberStep_example :
    StepTo
      (live_for plain_hash 9 leave_tenant)
      club
      "s"
      (run_tenant_action plain_hash "t" 9 "s" leave_tenant club).0
run-MemberStep_example = run-MemberStep plain_hash "t" 9 "s" leave_tenant club

run-IsValid_example : IsValid (run_tenant_action plain_hash "t" 9 "s" leave_tenant club).0
run-IsValid_example = run-IsValid plain_hash "t" 9 "s" leave_tenant club club-IsValid

run-IsKept_example :
    IsKept club "s" ada
      (run_tenant_action plain_hash "t" 9 "s" (remove_member_named "ada") club).0.members
run-IsKept_example =
    run-IsKept plain_hash "t" 9 "s" (remove_member_named "ada") club ada club-IsValid (inl refl)
      refl

run-IsApart_example :
    IsApart club "s"
      (run_tenant_action plain_hash "t" 9 "s" (create_tenant (codes "New")) club).0.members
run-IsApart_example =
    run-IsApart plain_hash "t" 9 "s" (create_tenant (codes "New")) club club-IsValid
