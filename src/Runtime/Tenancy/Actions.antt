-- ===== src/Runtime/Tenancy/Actions.antt =====
-- The seven reserved actions of runtime/tenancy.go, each with its refusals in the source's order.
use fct.Base.{
  ℕ, ◌+◌, String, Bool, true, false, not, ◌&&◌, Option, none, some, List, [], ◌∷◌, ◌==◌, string_eq,
  if◌then◌else◌, ltb,
}
use fct.Base.Text.{Text, text_eq, is_space, trim}
use fct.Runtime.Tenancy.{
  Tenant, Member, Invite, saved_member, saved_invite, saved_session, audited, State, Out, done,
  created_tenant, issued, refused, no_name, sign_in, not_member, bad_role, not_manager, bad_token,
  no_such_member, owner_stays, note, actor_of, active_tenant, set_tenant, membership_of,
  tenant_role_for, tenant_manager, insert_tenant, insert_member, insert_invite, put_role,
  remove_member, is_nobody, invite_ttl,
}

abbrev pub accept_created : String → String → ℕ → State × Tenant → Out
accept_created sid actor now (s, tenant) = (
  note (audited actor "createTenant" true) (
      note (saved_session sid)
        (set_tenant sid tenant.id (insert_member tenant.id actor "owner" now s))),
  created_tenant tenant,
)

unfoldable pub tenant_create : ℕ → String → Text → State → Out
tenant_create now sid raw s =
    let name = trim is_space raw in
    let actor = actor_of s sid in
    if text_eq name []
    then (s, refused no_name)
    else if is_nobody actor
    then (s, refused sign_in)
    else accept_created sid actor now (insert_tenant name actor now s)

abbrev pub switch_to : String → ℕ → State → Option Member → Out
switch_to sid tid s none = (s, refused not_member)
switch_to sid tid s (some m) = (
  note (audited (actor_of s sid) "switchTenant" true)
      (note (saved_session sid) (set_tenant sid tid s)),
  done,
)

unfoldable pub tenant_switch : String → ℕ → State → Out
tenant_switch sid tid s = switch_to sid tid s (membership_of (actor_of s sid) tid s.members)

abbrev pub invite_role : String → String
invite_role role = if role == "" then "member" else role

abbrev pub manages : State → String → Bool
manages s sid = tenant_manager (tenant_role_for (actor_of s sid) (active_tenant s sid) s.members)

unfoldable pub tenant_invite : (String → String) → String → ℕ → String → Text → String → State → Out
tenant_invite hash fresh now sid email role s =
    if not (invite_role role == "member") && not (invite_role role == "admin")
    then (s, refused bad_role)
    else if not (manages s sid)
    then (note (audited (actor_of s sid) "inviteMember" false) s, refused not_manager)
    else (
      note (audited (actor_of s sid) "inviteMember" true) (
          insert_invite (active_tenant s sid) (trim is_space email) (hash fresh) (invite_role role)
            (actor_of s sid) (now + invite_ttl) s),
      issued fresh,
    )

-- tokenEqual: a stored hash that is empty matches no token.
abbrev pub token_equal : (String → String) → String → String → Bool
token_equal hash presented stored = not (stored == "") && hash presented == stored

abbrev pub is_live : (String → String) → String → ℕ → Invite → Bool
is_live hash token now i = not i.accepted && token_equal hash token i.token && ltb now i.expires

unfoldable pub find_invite : (Invite → Bool) → List Invite → Option Invite
find_invite p [] = none
find_invite p (i ∷ is) = if p i then some i else find_invite p is

-- `inv["accepted"] = true` on the row that `find_invite` found.
unfoldable pub spend : (Invite → Bool) → List Invite → List Invite
spend p [] = []
spend p (i ∷ is) = if p i then record i { accepted = true } ∷ is else i ∷ spend p is

abbrev pub join : String → Invite → ℕ → Option Member → State → State
join actor i now none s = insert_member i.tenant actor i.role now s
join actor i now (some m) s = s

abbrev pub accept_invite : (Invite → Bool) → ℕ → String → State → Option Invite → Out
accept_invite p now sid s none =
    (note (audited (actor_of s sid) "acceptInvite" false) s, refused bad_token)
accept_invite p now sid s (some i) =
    let actor = actor_of s sid in
    let joined = join actor i now (membership_of actor i.tenant s.members) s in
    (
      note (audited actor "acceptInvite" true) (
          note (saved_session sid) (
            set_tenant sid i.tenant (
              note (saved_invite (record i { accepted = true }))
                (record joined { invites = spend p joined.invites })))),
      done,
    )

unfoldable pub tenant_accept : (String → String) → ℕ → String → String → State → Out
tenant_accept hash now sid token s =
    if is_nobody (actor_of s sid)
    then (s, refused sign_in)
    else accept_invite (is_live hash token now) now sid s
        (find_invite (is_live hash token now) s.invites)

abbrev pub set_role_of : String → String → String → State → Option Member → Out
set_role_of sid username role s none = (s, refused no_such_member)
set_role_of sid username role s (some m) = (
  note (audited (actor_of s sid) "setMemberRole" true) (
      note (saved_member (record m { role = role }))
        (record s { members = put_role username (active_tenant s sid) role s.members })),
  done,
)

unfoldable pub tenant_set_role : String → String → String → State → Out
tenant_set_role sid username role s =
    if not (role == "member") && not (role == "admin") && not (role == "owner")
    then (s, refused bad_role)
    else if not (manages s sid)
    then (s, refused not_manager)
    else set_role_of sid username role s (membership_of username (active_tenant s sid) s.members)

abbrev pub remove_found : String → State → Option Member → Out
remove_found sid s none = (s, refused no_such_member)
remove_found sid s (some m) =
    if m.role == "owner"
    then (s, refused owner_stays)
    else (note (audited (actor_of s sid) "removeMember" true) (remove_member m.id s), done)

unfoldable pub tenant_remove_member : String → String → State → Out
tenant_remove_member sid username s =
    if not (manages s sid)
    then (s, refused not_manager)
    else remove_found sid s (membership_of username (active_tenant s sid) s.members)

abbrev pub leave_found : String → State → Option Member → Out
leave_found sid s none = (s, refused not_member)
leave_found sid s (some m) = if m.role == "owner" then (s, refused owner_stays) else (
  note (audited (actor_of s sid) "leaveTenant" true)
      (note (saved_session sid) (set_tenant sid 0 (remove_member m.id s))),
  done,
)

unfoldable pub tenant_leave : String → State → Out
tenant_leave sid s =
    leave_found sid s (membership_of (actor_of s sid) (active_tenant s sid) s.members)

-- The actions by name, with their arguments.
pub data Action : Type 0 where
  create_tenant : Text → Action
  switch_tenant : ℕ → Action
  invite_member : Text → String → Action
  accept_invitation : String → Action
  set_member_role : String → String → Action
  remove_member_named : String → Action
  leave_tenant : Action

unfoldable pub run_tenant_action : (String → String) → String → ℕ → String → Action → State → Out
run_tenant_action hash fresh now sid (create_tenant name) s = tenant_create now sid name s
run_tenant_action hash fresh now sid (switch_tenant tid) s = tenant_switch sid tid s
run_tenant_action hash fresh now sid (invite_member email role) s =
    tenant_invite hash fresh now sid email role s
run_tenant_action hash fresh now sid (accept_invitation token) s =
    tenant_accept hash now sid token s
run_tenant_action hash fresh now sid (set_member_role username role) s =
    tenant_set_role sid username role s
run_tenant_action hash fresh now sid (remove_member_named username) s =
    tenant_remove_member sid username s
run_tenant_action hash fresh now sid leave_tenant s = tenant_leave sid s
