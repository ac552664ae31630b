-- ===== src/Runtime/Grants/Tests.antt =====
-- A command that is started with `--config=/etc/a` and tries to read more.
use fct.Base.{◌≡◌, refl, some, List, [], ◌∷◌, ◌++◌, nat_eq, ok, err}
use fct.Base.Text.{Text, codes, text_eq, has_prefix, cut_prefix}
use fct.Runtime.Grants.{
  Filepath, Grants, escapes, grant_read, grant_dir, operator_named, granted_path, resolve_read_path,
  resolve_data_path, names_path, after_equals, is_granted, covers_dir, is_under, gate, within,
  or_sandbox,
}
use fct.Runtime.Grants.Sandbox.{Grant, reads, dirs, run_grant, run_grants, no_grants}

-- Paths that are clean already.
abbrev unix : Filepath
unfolding cut_prefix
unix = record {
  is_abs = has_prefix (codes "/");
  clean = λ p. p;
  join = λ root p. root ++ codes "/" ++ p;
  abs_root = some (codes "/data");
}

abbrev args : List Text
args = codes "--config=/etc/a" ∷ codes "/srv" ∷ []

abbrev start : Grants
start = no_grants args (codes "HOME=/root" ∷ [])

abbrev tried : List Grant
tried = reads (codes "/etc/a") ∷ reads (codes "/etc/b") ∷ dirs (codes "/srv") ∷ []

-- What the three tries leave readable.
read_named :
    resolve_read_path unix (codes "/etc/a") (run_grants unix tried start) ≡ ok (codes "/etc/a")
unfolding cut_prefix run_grants run_grant grant_read grant_dir operator_named names_path
    after_equals text_eq granted_path resolve_read_path or_sandbox is_granted covers_dir
read_named = refl

read_other : resolve_read_path unix (codes "/etc/b") (run_grants unix tried start) ≡ err escapes
unfolding cut_prefix run_grants run_grant grant_read grant_dir operator_named names_path
    after_equals text_eq granted_path resolve_read_path or_sandbox is_granted covers_dir
    resolve_data_path is_under gate within
read_other = refl

write_named : resolve_data_path unix (codes "/etc/a") (run_grants unix tried start) ≡ err escapes
unfolding cut_prefix run_grants run_grant grant_read grant_dir operator_named names_path
    after_equals text_eq granted_path covers_dir resolve_data_path is_under gate within
write_named = refl

write_under :
    resolve_data_path unix (codes "/srv/x") (run_grants unix tried start) ≡ ok (codes "/srv/x")
unfolding cut_prefix run_grants run_grant grant_read grant_dir operator_named names_path
    after_equals text_eq granted_path covers_dir resolve_data_path is_under gate within
write_under = refl
