-- ===== src/Runtime/Tenancy/Steps.antt =====
-- The abstract view of an action on the membership table: who may change which row. Every handler
-- takes one of these steps.
use fct.Base.{
  ℕ, suc, String, ◌≡◌, ◌≢◌, refl, inl, inr, ◌⊎◌, Bool, not, ◌&&◌, true, false, Option, none, some,
  List, [], ◌∷◌, ◌++◌, ◌==◌, string_eq, nat_eq, arith, eq_iff, In, Bool-cases, lookup,
}
use fct.Base.Text.{Text, text_eq, is_space, trim}
use fct.Runtime.Tenancy.{
  Member, Invite, Session, State, Out, actor_of, active_tenant, is_nobody, membership_of, drop_id,
  put_role, insert_tenant, insert_member, insert_invite, remove_member, set_tenant, set_tenant_of,
}
use fct.Runtime.Tenancy.Rows.{membership_of-In, any-id}
use fct.Runtime.Tenancy.Actions.{
  Action, create_tenant, switch_tenant, invite_member, accept_invitation, set_member_role,
  remove_member_named, leave_tenant, run_tenant_action, tenant_create, tenant_switch, tenant_invite,
  tenant_accept, tenant_set_role, tenant_remove_member, tenant_leave, manages, is_live, find_invite,
  spend, join, accept_invite, invite_role, set_role_of, remove_found, leave_found, switch_to,
}

-- What one action of a session may do to the memberships, the invitations and their counters.
pub data MemberStep (live : Invite → Bool) (s : State) (sid : String)
    : List Member → List Invite → ℕ → ℕ → Type 0 where
  stays : MemberStep live s sid s.members s.invites s.next_member s.next_tenant
  founds :
      (m : Member)
      → is_nobody (actor_of s sid) ≡ false
      → m.username ≡ actor_of s sid
      → m.role ≡ "owner"
      → m.id ≡ suc s.next_member
      → m.tenant ≡ suc s.next_tenant
      → MemberStep live s sid
          (s.members ++ m ∷ [])
          s.invites
          (suc s.next_member)
          (suc s.next_tenant)
  invites :
      (i : Invite)
      → manages s sid ≡ true
      → i.tenant ≡ active_tenant s sid
      → (i.role ≡ "member") ⊎ (i.role ≡ "admin")
      → MemberStep live s sid s.members (s.invites ++ i ∷ []) s.next_member s.next_tenant
  joins :
      (m : Member) (i : Invite)
      → is_nobody (actor_of s sid) ≡ false
      → In i s.invites
      → live i ≡ true
      → m.username ≡ actor_of s sid
      → m.id ≡ suc s.next_member
      → m.tenant ≡ i.tenant
      → m.role ≡ i.role
      → membership_of (actor_of s sid) i.tenant s.members ≡ none
      → MemberStep live s sid
          (s.members ++ m ∷ [])
          (spend live s.invites)
          (suc s.next_member)
          s.next_tenant
  rejoins :
      (i : Invite)
      → In i s.invites
      → live i ≡ true
      → MemberStep live s sid s.members (spend live s.invites) s.next_member s.next_tenant
  sets :
      (username role : String)
      → manages s sid ≡ true
      → MemberStep live s sid
          (put_role username (active_tenant s sid) role s.members)
          s.invites
          s.next_member
          s.next_tenant
  removes :
      (m : Member)
      → manages s sid ≡ true
      → In m s.members
      → m.tenant ≡ active_tenant s sid
      → m.role ≢ "owner"
      → MemberStep live s sid (drop_id m.id s.members) s.invites s.next_member s.next_tenant
  leaves :
      (m : Member)
      → In m s.members
      → m.tenant ≡ active_tenant s sid
      → m.username ≡ actor_of s sid
      → m.role ≢ "owner"
      → MemberStep live s sid (drop_id m.id s.members) s.invites s.next_member s.next_tenant

abbrev pub StepTo : (Invite → Bool) → State → String → State → Type 0
StepTo live s sid s' = MemberStep live s sid s'.members s'.invites s'.next_member s'.next_tenant

find_invite-In :
    (p : Invite → Bool) (is : List Invite) (i : Invite)
    → find_invite p is ≡ some i
    → In i is × (p i ≡ true)
unfolding find_invite
find_invite-In p [] i h = absurd (cc)
find_invite-In p (j ∷ is) i h = elim (Bool-cases (p j)) [
  | inl e ↦ ground (arith, rw e at h, e)
  | inr e ↦ let k = find_invite-In p is i (rw e at h) in (inr k.0, k.1)
]

module _ (live : Invite → Bool) (s : State) (sid : String) where
  abbrev Goal : Out → Type 0
  Goal o = StepTo live s sid o.0

  -- The session's tenant is not part of what a step is about.
  tenant_of-step :
      (t : ℕ) (o : Option Session) (s' : State)
      → StepTo live s sid s'
      → StepTo live s sid (set_tenant_of sid t o s')
  tenant_of-step t none s' h = h
  tenant_of-step t (some ses) s' h = h

  tenant-step :
      (t : ℕ) (s' : State) → StepTo live s sid s' → StepTo live s sid (set_tenant sid t s')
  unfolding set_tenant
  tenant-step t s' h = tenant_of-step t (lookup sid s'.sessions) s' h

  create-step : (now : ℕ) (name : Text) → Goal (tenant_create now sid name s)
  unfolding tenant_create insert_tenant insert_member
  create-step now name = elim (Bool-cases (text_eq (trim is_space name) [])) [
    | inl e ↦ rw e stays
    | inr e ↦ elim (Bool-cases (is_nobody (actor_of s sid))) [
      | inl f ↦ rw (e, f) stays
      | inr f ↦ rw (e, f) (tenant-step _ _ (founds _ f refl refl refl refl))
    ]
  ]

  switch-found : (t : ℕ) (o : _) → Goal (switch_to sid t s o)
  switch-found t none = stays
  switch-found t (some m) = tenant-step t s stays

  switch-step : (t : ℕ) → Goal (tenant_switch sid t s)
  unfolding tenant_switch
  switch-step t = switch-found t (membership_of (actor_of s sid) t s.members)

  set_role-found : (u r : String) (o : _) → manages s sid ≡ true → Goal (set_role_of sid u r s o)
  set_role-found u r none h = stays
  set_role-found u r (some m) h = sets u r h

  set_role-step : (u r : String) → Goal (tenant_set_role sid u r s)
  unfolding tenant_set_role
  set_role-step u r =
      elim (Bool-cases (not (r == "member") && not (r == "admin") && not (r == "owner"))) [
        | inl e ↦ rw e stays
        | inr e ↦ elim (Bool-cases (manages s sid)) [
          | inl f ↦
              rw (e, f) (set_role-found u r (membership_of u (active_tenant s sid) s.members) f)
          | inr f ↦ rw (e, f) stays
        ]
      ]

  remove-found :
      (u : String) (o : _)
      → membership_of u (active_tenant s sid) s.members ≡ o
      → manages s sid ≡ true
      → Goal (remove_found sid s o)
  unfolding remove_member
  remove-found u none e h = stays
  remove-found u (some m) e h =
      let found = membership_of-In u (active_tenant s sid) s.members m e in
      elim (Bool-cases (m.role == "owner")) [
        | inl f ↦ rw f stays
        | inr f ↦
            rw (f, any-id m s.members found.0)
              (removes m h found.0 found.1 (ground (arith, f, eq_iff m.role "owner")))
      ]

  remove-step : (u : String) → Goal (tenant_remove_member sid u s)
  unfolding tenant_remove_member
  remove-step u = elim (Bool-cases (manages s sid)) [
    | inl e ↦ rw e (remove-found u (membership_of u (active_tenant s sid) s.members) refl e)
    | inr e ↦ rw e stays
  ]

  leave-found :
      (o : _)
      → membership_of (actor_of s sid) (active_tenant s sid) s.members ≡ o
      → Goal (leave_found sid s o)
  unfolding remove_member
  leave-found none e = stays
  leave-found (some m) e =
      let found = membership_of-In (actor_of s sid) (active_tenant s sid) s.members m e in
      elim (Bool-cases (m.role == "owner")) [
        | inl f ↦ rw f stays
        | inr f ↦ rw f (
            tenant-step 0 (remove_member m.id s) (
              rw (any-id m s.members found.0)
                (leaves m found.0 found.1 found.2 (ground (arith, f, eq_iff m.role "owner")))))
      ]

  leave-step : Goal (tenant_leave sid s)
  unfolding tenant_leave
  leave-step = leave-found (membership_of (actor_of s sid) (active_tenant s sid) s.members) refl

  invite-step :
      (hash : String → String) (fresh : String) (now : ℕ) (email : Text) (role : String)
      → Goal (tenant_invite hash fresh now sid email role s)
  unfolding tenant_invite insert_invite
  invite-step hash fresh now email role =
      let r = invite_role role in
      elim (Bool-cases (not (r == "member") && not (r == "admin"))) [
        | inl e ↦ rw e stays
        | inr e ↦ elim (Bool-cases (manages s sid)) [
          | inl f ↦
              rw (e, f) (invites _ f refl (ground (arith, e, eq_iff r "member", eq_iff r "admin")))
          | inr f ↦ rw (e, f) stays
        ]
      ]

  join-step :
      (now : ℕ) (i : Invite) (o : Option Member)
      → is_nobody (actor_of s sid) ≡ false
      → In i s.invites
      → live i ≡ true
      → membership_of (actor_of s sid) i.tenant s.members ≡ o
      → let joined = join (actor_of s sid) i now o s in
        MemberStep live s sid joined.members
          (spend live joined.invites)
          joined.next_member
          joined.next_tenant
  unfolding insert_member
  join-step now i none f k l e = joins _ i f k l refl refl refl refl e
  join-step now i (some m) f k l e = rejoins i k l

  accept-found :
      (now : ℕ) (o : Option Invite)
      → is_nobody (actor_of s sid) ≡ false
      → find_invite live s.invites ≡ o
      → Goal (accept_invite live now sid s o)
  accept-found now none f e = stays
  accept-found now (some i) f e =
      let found = find_invite-In live s.invites i e in
      tenant-step i.tenant _
        (join-step now i (membership_of (actor_of s sid) i.tenant s.members) f found.0 found.1 refl)

-- The invitations that an action may accept.
abbrev pub live_for : (String → String) → ℕ → Action → Invite → Bool
live_for hash now (accept_invitation token) i = is_live hash token now i
live_for hash now (create_tenant n) i = false
live_for hash now (switch_tenant t) i = false
live_for hash now (invite_member e r) i = false
live_for hash now (set_member_role u r) i = false
live_for hash now (remove_member_named u) i = false
live_for hash now leave_tenant i = false

-- Every action takes one abstract step on the memberships and invitations: it leaves them, founds a
-- tenant with the signed-in actor as its owner, invites as member or admin, joins by a live
-- invitation, which is spent, sets a role or takes out a row that is not an owner's in the active
-- tenant that the actor manages, or takes the actor, not an owner, out of it.
pub run-MemberStep :
    (hash : String → String) (fresh : String) (now : ℕ) (sid : String) (a : Action) (s : State)
    → StepTo (live_for hash now a) s sid (run_tenant_action hash fresh now sid a s).0
unfolding run_tenant_action tenant_accept
run-MemberStep hash fresh now sid (create_tenant name) s = create-step _ s sid now name
run-MemberStep hash fresh now sid (switch_tenant tid) s = switch-step _ s sid tid
run-MemberStep hash fresh now sid (invite_member email role) s =
    invite-step _ s sid hash fresh now email role
run-MemberStep hash fresh now sid (accept_invitation given) s =
    elim (Bool-cases (is_nobody (actor_of s sid))) [
      | inl e ↦ rw e stays
      | inr e ↦ rw e (accept-found (is_live hash given now) s sid now _ e refl)
    ]
run-MemberStep hash fresh now sid (set_member_role u role) s = set_role-step _ s sid u role
run-MemberStep hash fresh now sid (remove_member_named u) s = remove-step _ s sid u
run-MemberStep hash fresh now sid leave_tenant s = leave-step _ s sid
