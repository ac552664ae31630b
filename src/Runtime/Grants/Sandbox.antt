-- ===== src/Runtime/Grants/Sandbox.antt =====
-- What the file builtins can reach, whatever a program grants itself.
use fct.Base.{
  ◌≡◌, refl, ap, ◌∙◌, ◌⊎◌, Bool, true, false, some, List, [], ◌∷◌, any, All, Result, ok, err, arith,
  if_cases, if_true, if_false,
}
use fct.Base.Text.{Text, text_eq, text_eq_refl}
use fct.Runtime.Grants.{
  Filepath, Grants, PathError, is_under, operator_named, granted_path, on_path, grant_read,
  grant_dir, resolve_data_path, is_granted, or_sandbox, resolve_read_path,
}

-- The calls of proc main that widen what may be read.
pub data Grant : Type 0 where
  reads dirs : Text → Grant

unfoldable pub run_grant : Filepath → Grant → Grants → Grants × Result PathError Bool
unfolding grant_read grant_dir
run_grant fp (reads p) g = grant_read fp p g
run_grant fp (dirs p) g = grant_dir fp p g

unfoldable pub run_grants : Filepath → List Grant → Grants → Grants
unfolding run_grant
run_grants fp [] g = g
run_grants fp (op ∷ ops) g = run_grants fp ops (run_grant fp op g).0

module _ (fp : Filepath) where
  -- A path that the operator named stands for full.
  abbrev pub Named : Grants → Text → Type 0
  Named g full = (p : Text) × (operator_named p g ≡ true) × (granted_path fp p ≡ ok full)

  -- A path is in the data directory, or in a directory that the operator named.
  abbrev pub Writable : Grants → Text → Type 0
  Writable g full =
      ((root : Text) × (fp.abs_root ≡ some root) × (is_under root full ≡ true))
      ⊎ ((d : Text) × Named g d × (is_under d full ≡ true))

  abbrev pub Readable : Grants → Text → Type 0
  Readable g full = Named g full ⊎ Writable g full

  -- What a grant does to the state.
  data Granted (g : Grants) : Grants → Type 0 where
    same : Granted g g
    file : (full : Text) → Named g full → Granted g (record g { files = full ∷ g.files })
    dir : (full : Text) → Named g full → Granted g (record g { dirs = full ∷ g.dirs })

  on_path-Granted :
      (g : Grants) (p : Text) (r : Result PathError Text) (add : Text → Grants)
      → granted_path fp p ≡ r
      → ((full : Text) → granted_path fp p ≡ ok full → Granted g (add full))
      → Granted g (on_path r add g).0
  on_path-Granted g p (err e) add h k = same
  on_path-Granted g p (ok full) add h k = k full h

  abbrev Leads : Grants → Grants × Result PathError Bool → Type 0
  Leads g r = Granted g r.0

  grant-Granted : (op : Grant) (g : Grants) → Granted g (run_grant fp op g).0
  unfolding run_grant grant_read grant_dir
  grant-Granted (reads p) g =
      if_cases (Leads g) (text_eq p []) _ _ (λ e. same)
        λ e.
          if_cases (Leads g) (operator_named p g) _ (g, ok false)
            (λ k. on_path-Granted g p (granted_path fp p) _ refl (λ full q. file full (p, k, q)))
            λ k. same
  grant-Granted (dirs p) g =
      if_cases (Leads g) (text_eq p []) _ _ (λ e. same)
        λ e.
          if_cases (Leads g) (operator_named p g) _ (g, ok false)
            (λ k. on_path-Granted g p (granted_path fp p) _ refl (λ full q. dir full (p, k, q)))
            λ k. same

  -- The operator's words are those of the start, and so is all that is granted.
  record IsOperated (start g : Grants) : Type 0 where
    by_argv : g.argv ≡ start.argv
    by_environ : g.environ ≡ start.environ
    named_files : All (Named start) g.files
    named_dirs : All (Named start) g.dirs

  abbrev pub Gives : (Text → Type 0) → Result PathError Text → Type 0
  Gives P (err e) = Unit
  Gives P (ok full) = P full

  -- A file that is granted stays granted.
  grant-keeps :
      (full : Text) (g t : Grants)
      → Granted g t
      → any (text_eq full) g.files ≡ true
      → any (text_eq full) t.files ≡ true
  grant-keeps full g t same h = h
  grant-keeps full g t (file f n) h = ground (arith, h)
  grant-keeps full g t (dir d n) h = h

  grants-keep :
      (full : Text) (ops : List Grant) (g : Grants)
      → any (text_eq full) g.files ≡ true
      → any (text_eq full) (run_grants fp ops g).files ≡ true
  unfolding run_grants
  grants-keep full [] g h = h
  grants-keep full (op ∷ ops) g h =
      grants-keep full ops (run_grant fp op g).0 (grant-keeps full g _ (grant-Granted op g) h)

  granted-read :
      (p full : Text) (g : Grants)
      → text_eq p [] ≡ false
      → granted_path fp p ≡ ok full
      → any (text_eq full) g.files ≡ true
      → resolve_read_path fp p g ≡ ok full
  unfolding resolve_read_path is_granted or_sandbox
  granted-read p full g e n h =
      if_false (text_eq p []) _ _ e
      ∙ ap (λ r. or_sandbox r g (resolve_data_path fp p g)) n
      ∙ if_true (is_granted full g) (ok full) _ (ground (arith, h))

-- The grants that a process starts with: none.
abbrev pub no_grants : List Text → List Text → Grants
no_grants args env = record { argv = args; environ = env; files = []; dirs = [] }

-- A file that the operator named, whose path can be made absolute, becomes readable by grantRead, and
-- stays so whatever is granted later.
pub grant_read-kept :
    (fp : Filepath) (p full : Text) (ops : List Grant) (g : Grants)
    → text_eq p [] ≡ false
    → operator_named p g ≡ true
    → granted_path fp p ≡ ok full
    → ((grant_read fp p g).1 ≡ ok true)
      × (resolve_read_path fp p (run_grants fp ops (grant_read fp p g).0) ≡ ok full)
unfolding grant_read
grant_read-kept fp p full ops g e k n =
    let added : Grants = record g { files = full ∷ g.files } in
    let step : grant_read fp p g ≡ (added, ok true) =
      if_false (text_eq p []) _ _ e
      ∙ if_true (operator_named p g) _ (g, ok false) k
      ∙ ap (λ r. on_path r (λ f. record g { files = f ∷ g.files }) g) n in
    let held : any (text_eq full) added.files ≡ true = ground (arith, text_eq_refl full) in
    (
      ap (λ r. r.1) step,
      ap (λ r. resolve_read_path fp p (run_grants fp ops r.0)) step
          ∙ granted-read fp p full (run_grants fp ops added) e n
              (grants-keep fp full ops added held),
    )
