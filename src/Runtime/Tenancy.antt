-- ===== src/Runtime/Tenancy.antt =====
-- runtime/tenancy.go: organizations, their members and invitations, and the reserved actions on
-- them, with insertReserved, saveReserved, removeReserved and actorOf of runtime/enterprise.go.
-- A name or an address is the list of its bytes, ASCII for the letters that a slug keeps. The clock,
-- the random token and the keyed hash of tokens are parameters. `journal` lists, newest first, the
-- writes that go through to the store and the audit entries (without their detail text).
pub mod Actions
pub mod Rows
pub mod Valid
pub mod Keeps
pub mod Steps
mod Tests
use fct.Base.{
  ℕ, suc, ◌+◌, String, Bool, true, false, not, ◌&&◌, ◌||◌, Option, none, some, List, [], ◌∷◌, ◌++◌,
  ◌==◌, nat_eq, string_eq, if◌then◌else◌, Map, lookup, insert, leb, any,
}
use fct.Base.Text.{Text, text_eq, is_space, is_digit, trim}

pub record Tenant : Type 0 where
  pub id : ℕ
  pub name : Text
  pub slug : Text
  pub owner : String
  pub created : ℕ

pub record Member : Type 0 where
  pub id : ℕ
  pub tenant : ℕ
  pub username : String
  pub role : String
  pub created : ℕ

pub record Invite : Type 0 where
  pub id : ℕ
  pub tenant : ℕ
  pub email : Text
  pub token : String
  pub role : String
  pub inviter : String
  pub accepted : Bool
  pub expires : ℕ

-- The identity of a session and its `__tenant`.
pub record Session : Type 0 where
  pub actor : String
  pub tenant : ℕ

pub data Event : Type 0 where
  saved_tenant : Tenant → Event
  saved_member : Member → Event
  saved_invite : Invite → Event
  deleted_member : ℕ → Event
  saved_session : String → Event
  audited : String → String → Bool → Event

pub record State : Type 0 where
  pub tenants : List Tenant
  pub members : List Member
  pub invites : List Invite
  pub next_tenant : ℕ
  pub next_member : ℕ
  pub next_invite : ℕ
  pub sessions : Map String Session
  pub journal : List Event

pub data Refusal : Type 0 where
  no_name sign_in not_member bad_role not_manager bad_token no_such_member owner_stays : Refusal

pub data Reply : Type 0 where
  done : Reply
  created_tenant : Tenant → Reply
  issued : String → Reply
  refused : Refusal → Reply

abbrev pub Out : Type 0
Out = State × Reply

abbrev pub guest : String
guest = "guest"

abbrev pub invite_ttl : ℕ
invite_ttl = 604800

abbrev pub note : Event → State → State
note e s = record s { journal = e ∷ s.journal }

abbrev lower : ℕ → ℕ
lower c = if leb b'A' c && leb c b'Z' then c + 32 else c

abbrev is_slug : ℕ → Bool
is_slug c = (leb b'a' c && leb c b'z') || is_digit c

-- The loop, with whether anything is written yet and whether the last byte written is a dash.
unfoldable pub slug_loop : Bool → Bool → Text → Text
slug_loop some_out dash [] = []
slug_loop some_out dash (c ∷ s) =
    if is_slug (lower c)
    then lower c ∷ slug_loop true false s
    else if not dash && some_out
    then b'-' ∷ slug_loop true true s
    else slug_loop some_out dash s

unfoldable pub slugify : Text → Text
slugify s = trim (λ c. c == b'-') (slug_loop false false s)

unfoldable pub actor_of : State → String → String
actor_of s sid = elim (lookup sid s.sessions) [ none ↦ guest | some ses ↦ ses.actor ]

unfoldable pub active_tenant : State → String → ℕ
active_tenant s sid = elim (lookup sid s.sessions) [ none ↦ 0 | some ses ↦ ses.tenant ]

-- `ses.state["__tenant"] = tid`, if there is a session
abbrev pub set_tenant_of : String → ℕ → Option Session → State → State
set_tenant_of sid tid none s = s
set_tenant_of sid tid (some ses) s = record s {
  sessions = insert sid (record ses { tenant = tid }) s.sessions;
}

unfoldable pub set_tenant : String → ℕ → State → State
set_tenant sid tid s = set_tenant_of sid tid (lookup sid s.sessions) s

abbrev pub is_member_of : String → ℕ → Member → Bool
is_member_of actor tid m = m.tenant == tid && m.username == actor

unfoldable pub membership_of : String → ℕ → List Member → Option Member
membership_of actor tid [] = none
membership_of actor tid (m ∷ ms) =
    if is_member_of actor tid m then some m else membership_of actor tid ms

abbrev pub is_nobody : String → Bool
is_nobody actor = actor == "" || actor == guest

abbrev pub role_in : Option Member → String
role_in none = ""
role_in (some m) = m.role

unfoldable pub tenant_role_for : String → ℕ → List Member → String
tenant_role_for actor tid ms =
    if tid == 0 || is_nobody actor then "" else role_in (membership_of actor tid ms)

abbrev pub tenant_manager : String → Bool
tenant_manager role = role == "owner" || role == "admin"

-- insertReserved, for each of the three tables
unfoldable pub insert_tenant : Text → String → ℕ → State → State × Tenant
unfolding slugify
insert_tenant name owner now s =
    let row : Tenant = record {
      id = suc s.next_tenant;
      name = name;
      slug = slugify name;
      owner = owner;
      created = now;
    } in
    (
      note (saved_tenant row)
          (record s { next_tenant = suc s.next_tenant; tenants = s.tenants ++ row ∷ [] }),
      row,
    )

unfoldable pub insert_member : ℕ → String → String → ℕ → State → State
insert_member tid username role now s =
    let row : Member = record {
      id = suc s.next_member;
      tenant = tid;
      username = username;
      role = role;
      created = now;
    } in
    note (saved_member row)
      (record s { next_member = suc s.next_member; members = s.members ++ row ∷ [] })

unfoldable pub insert_invite : ℕ → Text → String → String → String → ℕ → State → State
insert_invite tid email token role inviter expires s =
    let row : Invite = record {
      id = suc s.next_invite;
      tenant = tid;
      email = email;
      token = token;
      role = role;
      inviter = inviter;
      accepted = false;
      expires = expires;
    } in
    note (saved_invite row)
      (record s { next_invite = suc s.next_invite; invites = s.invites ++ row ∷ [] })

-- removeReserved: the first row with the id.
unfoldable pub drop_id : ℕ → List Member → List Member
drop_id id [] = []
drop_id id (m ∷ ms) = if m.id == id then ms else m ∷ drop_id id ms

-- `m["role"] = role` on the row that `membership_of` found.
unfoldable pub put_role : String → ℕ → String → List Member → List Member
put_role username tid role [] = []
put_role username tid role (m ∷ ms) =
    if is_member_of username tid m
    then record m { role = role } ∷ ms
    else m ∷ put_role username tid role ms

unfoldable pub remove_member : ℕ → State → State
unfolding drop_id
remove_member id s =
    if any (λ m. m.id == id) s.members
    then note (deleted_member id) (record s { members = drop_id id s.members })
    else s
