-- ===== src/Runtime/Tenancy/Keeps.antt =====
-- What an action cannot do to a membership: remove an owner's, or touch another tenant's.
use fct.Base.{
  ℕ, String, ◌≡◌, ◌≢◌, sym, ap, ◌∙◌, inl, inr, ◌⊎◌, Bool, true, List, [], ◌∷◌, ◌++◌, string_eq,
  nat_eq, arith, In, Bool-cases,
}
use fct.Runtime.Tenancy.{
  Member, Invite, State, actor_of, active_tenant, is_member_of, drop_id, put_role,
}
use fct.Runtime.Tenancy.Rows.{In-append, append-In, drop_id-keeps, drop_id-In, put_role-keeps}
use fct.Runtime.Tenancy.Actions.{Action, run_tenant_action, manages}
use fct.Runtime.Tenancy.Steps.{
  MemberStep, stays, founds, invites, joins, rejoins, sets, removes, leaves, run-MemberStep,
  live_for,
}
use fct.Runtime.Tenancy.Valid.{IsValid, unique-In}

abbrev pub with_role : Member → String → Member
with_role m r = record m { role = r }

-- The row is there, or a manager of its tenant has set its role.
abbrev pub IsKept : State → String → Member → List Member → Type 0
IsKept s sid m ms =
    In m ms
    ⊎ ((manages s sid ≡ true)
        × (m.tenant ≡ active_tenant s sid)
        × ((r : String) × In (with_role m r) ms))

put_role-row :
    (u : String) (t : ℕ) (r : String) (ms : List Member) (m : Member)
    → In m ms
    → In m (put_role u t r ms) ⊎ ((m.tenant ≡ t) × In (with_role m r) (put_role u t r ms))
unfolding put_role
put_role-row u t r [] m k = elim k [ ]
put_role-row u t r (n ∷ ms) m (inl e) = elim (Bool-cases (is_member_of u t n)) [
  | inl f ↦
      let here : n.tenant ≡ t = ground (arith, f) in
      rw f (inr (ap (λ x. x.tenant) e ∙ here, inl (ap (λ x. with_role x r) e)))
  | inr f ↦ rw f (inl (inl e))
]
put_role-row u t r (n ∷ ms) m (inr k) = elim (Bool-cases (is_member_of u t n)) [
  | inl f ↦ rw f (inl (inr k))
  | inr f ↦
      rw f (elim (put_role-row u t r ms m k) [ inl h ↦ inl (inr h) | inr h ↦ inr (h.0, inr h.1) ])
]

other-id :
    (s : State) (m n : Member) → IsValid s → In m s.members → In n s.members → m ≢ n → m.id ≢ n.id
other-id s m n v k l d e = d (unique-In s.members m n v.unique k l e)

step-keeps-owner :
    (live : Invite → Bool) (s : State) (sid : String) (m : Member) (ms : List Member)
    (is : List Invite) (k t : ℕ)
    → IsValid s
    → In m s.members
    → m.role ≡ "owner"
    → MemberStep live s sid ms is k t
    → IsKept s sid m ms
step-keeps-owner live s sid m _ _ _ _ v h o stays = inl h
step-keeps-owner live s sid m _ _ _ _ v h o (founds n f u r i t) = inl (append-In m n s.members h)
step-keeps-owner live s sid m _ _ _ _ v h o (invites i g t r) = inl h
step-keeps-owner live s sid m _ _ _ _ v h o (joins n i f k l u e t r fresh) =
    inl (append-In m n s.members h)
step-keeps-owner live s sid m _ _ _ _ v h o (rejoins i k l) = inl h
step-keeps-owner live s sid m _ _ _ _ v h o (sets u r g) =
    elim (put_role-row u (active_tenant s sid) r s.members m h) [
      | inl k ↦ inl k
      | inr k ↦ inr (g, k.0, (r, k.1))
    ]
step-keeps-owner live s sid m _ _ _ _ v h o (removes n g k t d) = inl (
    drop_id-keeps n.id s.members m (other-id s m n v h k (λ e. d (sym (ap (λ x. x.role) e) ∙ o))) h)
step-keeps-owner live s sid m _ _ _ _ v h o (leaves n k t u d) = inl (
    drop_id-keeps n.id s.members m (other-id s m n v h k (λ e. d (sym (ap (λ x. x.role) e) ∙ o))) h)

-- No action removes an owner's membership from a valid state: the row is still there afterwards, or
-- it is there with another role, which a manager of its tenant has set.
pub run-IsKept :
    (hash : String → String) (fresh : String) (now : ℕ) (sid : String) (a : Action) (s : State)
    (m : Member)
    → IsValid s
    → In m s.members
    → m.role ≡ "owner"
    → IsKept s sid m (run_tenant_action hash fresh now sid a s).0.members
run-IsKept hash fresh now sid a s m v h o =
    step-keeps-owner (live_for hash now a) s sid m _ _ _ _ v h o
      (run-MemberStep hash fresh now sid a s)

-- The memberships in the other tenants: none goes or changes, and only the actor's own is added.
pub record IsApart (s : State) (sid : String) (ms : List Member) : Type 0 where
  pub kept : (m : Member) → m.tenant ≢ active_tenant s sid → In m s.members → In m ms
  pub added :
      (m : Member)
      → m.tenant ≢ active_tenant s sid
      → In m ms
      → In m s.members ⊎ (m.username ≡ actor_of s sid)

IsApart-append :
    (s : State) (sid : String) (n : Member)
    → n.username ≡ actor_of s sid
    → IsApart s sid (s.members ++ n ∷ [])
IsApart-append s sid n u = record {
  kept = λ m d k. append-In m n s.members k;
  added = λ m d k. elim (In-append m n s.members k) [
    | inl h ↦ inl h
    | inr e ↦ inr (ap (λ x. x.username) e ∙ u)
  ];
}

IsApart-drop :
    (s : State) (sid : String) (n : Member)
    → IsValid s
    → In n s.members
    → n.tenant ≡ active_tenant s sid
    → IsApart s sid (drop_id n.id s.members)
IsApart-drop s sid n v k t = record {
  kept = λ m d h.
      drop_id-keeps n.id s.members m (other-id s m n v h k (λ e. d (ap (λ x. x.tenant) e ∙ t))) h;
  added = λ m d h. inl (drop_id-In n.id s.members m h);
}

IsApart-same : (s : State) (sid : String) → IsApart s sid s.members
IsApart-same s sid = record { kept = λ m d k. k; added = λ m d k. inl k }

step-IsApart :
    (live : Invite → Bool) (s : State) (sid : String) (ms : List Member) (is : List Invite)
    (k t : ℕ)
    → IsValid s
    → MemberStep live s sid ms is k t
    → IsApart s sid ms
step-IsApart live s sid _ _ _ _ v stays = IsApart-same s sid
step-IsApart live s sid _ _ _ _ v (founds m f u r i t) = IsApart-append s sid m u
step-IsApart live s sid _ _ _ _ v (invites i g t r) = IsApart-same s sid
step-IsApart live s sid _ _ _ _ v (joins m i f k l u e t r fresh) = IsApart-append s sid m u
step-IsApart live s sid _ _ _ _ v (rejoins i k l) = IsApart-same s sid
step-IsApart live s sid _ _ _ _ v (sets u r g) = record {
  kept = λ m d k. (put_role-keeps u (active_tenant s sid) r s.members m d).0 k;
  added = λ m d k. inl ((put_role-keeps u (active_tenant s sid) r s.members m d).1 k);
}
step-IsApart live s sid _ _ _ _ v (removes m h k t o) = IsApart-drop s sid m v k t
step-IsApart live s sid _ _ _ _ v (leaves m k t u o) = IsApart-drop s sid m v k t

-- From a valid state, an action leaves every membership of the tenants other than the session's
-- active one as it is, and adds none to them but the actor's own.
pub run-IsApart :
    (hash : String → String) (fresh : String) (now : ℕ) (sid : String) (a : Action) (s : State)
    → IsValid s
    → IsApart s sid (run_tenant_action hash fresh now sid a s).0.members
run-IsApart hash fresh now sid a s v =
    step-IsApart (live_for hash now a) s sid _ _ _ _ v (run-MemberStep hash fresh now sid a s)
