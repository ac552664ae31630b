-- ===== src/Runtime/Tenancy/Valid.antt =====
-- What every action keeps of the membership table: its uniqueness, its owners, the other tenants.
use fct.Base.{
  ℕ, suc, ◌≤◌, String, ◌≡◌, refl, sym, ap, ◌∙◌, inl, inr, ◌⊎◌, Bool, true, false, ◌||◌, string_eq,
  nat_eq, some, List, [], ◌∷◌, ◌++◌, ◌==◌, arith, eq_iff, In, All, All-append, All-map, Bool-cases,
  Option-cases,
}
use fct.Runtime.Tenancy.{
  Member, Invite, State, actor_of, active_tenant, is_member_of, membership_of, tenant_role_for,
  is_nobody,
}
use fct.Runtime.Tenancy.Rows.{
  Differs, IsUnique, In-All, membership_of-none, membership_of-In, drop_id-All, drop_id-IsUnique,
  put_role-All, put_role-IsUnique,
}
use fct.Runtime.Tenancy.Actions.{Action, run_tenant_action, manages, spend}
use fct.Runtime.Tenancy.Steps.{
  MemberStep, stays, founds, invites, joins, rejoins, sets, removes, leaves, run-MemberStep,
  live_for,
}

-- Ids and tenants stay within the counters.
pub record IsBelow (ids tenants : ℕ) (m : Member) : Type 0 where
  pub id : m.id ≤ ids
  pub tenant : m.tenant ≤ tenants

-- No two rows with the same id or the same tenant and user, and no tenant that was never created.
pub record IsTable (ms : List Member) (is : List Invite) (ids tenants : ℕ) : Type 0 where
  pub unique : IsUnique ms
  pub below : All (IsBelow ids tenants) ms
  pub invited : All (λ i. i.tenant ≤ tenants) is

abbrev pub IsValid : State → Type 0
IsValid s = IsTable s.members s.invites s.next_member s.next_tenant

IsUnique-append :
    (ms : List Member) (m : Member)
    → IsUnique ms
    → All (λ n. Differs n m) ms
    → IsUnique (ms ++ m ∷ [])
IsUnique-append [] m h d = (tt, tt)
IsUnique-append (n ∷ ms) m h d =
    (All-append (Differs n) ms (m ∷ []) h.0 (d.0, tt), IsUnique-append ms m h.1 d.1)

-- A row of a tenant that is new, or of a user who is not in the tenant yet.
new-Differs :
    (ids tenants : ℕ) (m n : Member)
    → IsBelow ids tenants n
    → m.id ≡ suc ids
    → (m.tenant ≡ suc tenants) ⊎ (is_member_of m.username m.tenant n ≡ false)
    → Differs n m
new-Differs ids tenants m n b e f = record {
  ids = λ h. absurd (omega (arith, b.id, e, h));
  names = ground (arith, b.tenant, f, eq_iff n.username m.username, eq_iff m.username n.username);
}

pub unique-In :
    (ms : List Member) (m n : Member) → IsUnique ms → In m ms → In n ms → m.id ≡ n.id → m ≡ n
unique-In [] m n h k l e = elim k [ ]
unique-In (o ∷ ms) m n h (inl p) (inl q) e = p ∙ sym q
unique-In (o ∷ ms) m n h (inl p) (inr l) e =
    absurd ((In-All (Differs o) n ms h.0 l).ids (sym (ap (λ x. x.id) p) ∙ e))
unique-In (o ∷ ms) m n h (inr k) (inl q) e =
    absurd ((In-All (Differs o) m ms h.0 k).ids (sym (e ∙ ap (λ x. x.id) q)))
unique-In (o ∷ ms) m n h (inr k) (inr l) e = unique-In ms m n h.1 k l e

spend-All :
    (p : Invite → Bool) (t : ℕ) (is : List Invite)
    → All (λ i. i.tenant ≤ t) is
    → All (λ i. i.tenant ≤ t) (spend p is)
unfolding spend
spend-All p t [] h = tt
spend-All p t (i ∷ is) h = elim (Bool-cases (p i)) [
  | inl e ↦ rw e h
  | inr e ↦ rw e (h.0, spend-All p t is h.1)
]

-- A role in a tenant is the role of a membership.
pub role-cases :
    (u : String) (t : ℕ) (ms : List Member)
    → (tenant_role_for u t ms ≡ "")
      ⊎ ((m : Member) × (membership_of u t ms ≡ some m) × (tenant_role_for u t ms ≡ m.role))
unfolding tenant_role_for
role-cases u t ms = elim (Bool-cases (t == 0 || is_nobody u)) [
  | inl e ↦ inl (rw e refl)
  | inr e ↦ elim (Option-cases (membership_of u t ms)) [
    | inl f ↦ inl (rw (e, f) refl)
    | inr (m, f) ↦ inr (m, f, rw (e, f) refl)
  ]
]

active-below :
    (s : State) (sid : String)
    → IsValid s
    → manages s sid ≡ true
    → active_tenant s sid ≤ s.next_tenant
active-below s sid v h = elim (role-cases (actor_of s sid) (active_tenant s sid) s.members) [
  | inl e ↦ absurd (cc (rw e at h))
  | inr (m, e, r) ↦
      let found = membership_of-In (actor_of s sid) (active_tenant s sid) s.members m e in
      omega (
        arith,
        (In-All (IsBelow s.next_member s.next_tenant) m s.members v.below found.0).tenant,
        found.1,
      )
]

joined-Differs :
    (ids tenants : ℕ) (u : String) (t : ℕ) (m : Member) (ms : List Member)
    → m.id ≡ suc ids
    → m.username ≡ u
    → m.tenant ≡ t
    → All (IsBelow ids tenants) ms
    → All (λ n. is_member_of u t n ≡ false) ms
    → All (λ n. Differs n m) ms
joined-Differs ids tenants u t m [] i e f b g = tt
joined-Differs ids tenants u t m (n ∷ ms) i e f b g = (
  new-Differs ids tenants m n b.0 i (inr (rw (e, f) g.0)),
  joined-Differs ids tenants u t m ms i e f b.1 g.1,
)

above : (k n t u : ℕ) → k ≤ n → t ≤ u → (m : Member) → IsBelow k t m → IsBelow n u m
above k n t u h g m b = record { id = omega (arith, h, b.id); tenant = omega (arith, g, b.tenant) }

step-IsValid :
    (live : Invite → Bool) (s : State) (sid : String) (ms : List Member) (is : List Invite)
    (k t : ℕ)
    → IsValid s
    → MemberStep live s sid ms is k t
    → IsTable ms is k t
step-IsValid live s sid _ _ _ _ v stays = v
step-IsValid live s sid _ _ _ _ v (founds m f u r i t) = record {
  unique = IsUnique-append s.members m v.unique (
      All-map _ (λ n. Differs n m) s.members
        (λ n b. new-Differs s.next_member s.next_tenant m n b i (inl t)) v.below);
  below =
      All-append _ s.members (m ∷ [])
        (All-map _ _ s.members
          (above s.next_member (suc s.next_member) s.next_tenant (suc s.next_tenant) (omega arith)
            (omega arith))
          v.below)
        (record { id = omega (arith, i); tenant = omega (arith, t) }, tt);
  invited = All-map _ _ s.invites (λ i h. omega (arith, h)) v.invited;
}
step-IsValid live s sid _ _ _ _ v (invites i h t r) = record {
  unique = v.unique;
  below = v.below;
  invited =
      All-append _ s.invites (i ∷ []) v.invited (omega (arith, t, active-below s sid v h), tt);
}
step-IsValid live s sid _ _ _ _ v (joins m i f k l u e t r fresh) = record {
  unique = IsUnique-append s.members m v.unique (
      joined-Differs s.next_member s.next_tenant (actor_of s sid) i.tenant m s.members e u t v.below
        (membership_of-none (actor_of s sid) i.tenant s.members fresh));
  below =
      All-append _ s.members (m ∷ [])
        (All-map _ _ s.members
          (above s.next_member (suc s.next_member) s.next_tenant s.next_tenant (omega arith)
            (omega arith))
          v.below)
        (
          record {
            id = omega (arith, e);
            tenant =
                omega (arith, t, In-All (λ i. i.tenant ≤ s.next_tenant) i s.invites v.invited k);
          },
          tt,
        );
  invited = spend-All live s.next_tenant s.invites v.invited;
}
step-IsValid live s sid _ _ _ _ v (rejoins i k l) = record {
  unique = v.unique;
  below = v.below;
  invited = spend-All live s.next_tenant s.invites v.invited;
}
step-IsValid live s sid _ _ _ _ v (sets u r h) = record {
  unique = put_role-IsUnique u (active_tenant s sid) r s.members v.unique;
  below =
      put_role-All (IsBelow s.next_member s.next_tenant) u (active_tenant s sid) r s.members
        (λ m b. record { id = b.id; tenant = b.tenant }) v.below;
  invited = v.invited;
}
step-IsValid live s sid _ _ _ _ v (removes m h k t o) = record {
  unique = drop_id-IsUnique m.id s.members v.unique;
  below = drop_id-All (IsBelow s.next_member s.next_tenant) m.id s.members v.below;
  invited = v.invited;
}
step-IsValid live s sid _ _ _ _ v (leaves m k t u o) = record {
  unique = drop_id-IsUnique m.id s.members v.unique;
  below = drop_id-All (IsBelow s.next_member s.next_tenant) m.id s.members v.below;
  invited = v.invited;
}

-- If no two membership rows share an id or a tenant and a user, and no row or invitation names a
-- tenant or an id above the counters, the same holds after any action.
pub run-IsValid :
    (hash : String → String) (fresh : String) (now : ℕ) (sid : String) (a : Action) (s : State)
    → IsValid s
    → IsValid (run_tenant_action hash fresh now sid a s).0
run-IsValid hash fresh now sid a s v =
    step-IsValid (live_for hash now a) s sid _ _ _ _ v (run-MemberStep hash fresh now sid a s)
