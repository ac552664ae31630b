-- ===== src/Runtime/Grants.antt =====
-- runtime/grants.go and resolveDataPath of runtime/io.go: which paths the file builtins may name.
-- A set of paths is a list, a text its bytes. The functions of path/filepath are the fields of
-- `Filepath`; the process's environment does not change. grantRead and grantDir are run by `proc main`
-- only, which is a check of the compiler.
pub mod Sandbox
mod Tests
use fct.Base.{
  ℕ, Bool, true, false, ◌&&◌, ◌||◌, Option, none, some, List, [], ◌∷◌, ◌++◌, ◌==◌, nat_eq,
  if◌then◌else◌, any, Result, ok, err,
}
use fct.Base.Text.{Text, text_eq, has_prefix}

-- What the code calls of path/filepath: `abs_root` is filepath.Abs of the data directory, if it answers.
pub record Filepath : Type 0 where
  pub is_abs : Text → Bool
  pub clean : Text → Text
  pub join : Text → Text → Text
  pub abs_root : Option Text

pub record Grants : Type 0 where
  pub argv : List Text
  pub environ : List Text
  pub files : List Text
  pub dirs : List Text

pub data PathError : Type 0 where
  empty_path no_root escapes : PathError

-- full is the directory d or lies under it.
unfoldable pub is_under : Text → Text → Bool
is_under d full = text_eq full d || has_prefix (d ++ b'/' ∷ []) full

-- coversDir
unfoldable pub covers_dir : Text → Grants → Bool
unfolding is_under
covers_dir full g = any (λ d. is_under d full) g.dirs

-- setArgv
abbrev pub set_argv : List Text → Grants → Grants
set_argv args g = record g { argv = args }

-- What strings.Cut leaves after the first `=`.
unfoldable pub after_equals : Text → Option Text
after_equals [] = none
after_equals (c ∷ s) = if c == b'=' then some s else after_equals s

abbrev pub is_value : Text → Option Text → Bool
is_value path none = false
is_value path (some v) = text_eq v path

unfoldable pub names_path : Text → Text → Bool
unfolding after_equals
names_path path a = text_eq a path || (has_prefix (b'-' ∷ []) a && is_value path (after_equals a))

-- operatorNamed
unfoldable pub operator_named : Text → Grants → Bool
unfolding names_path after_equals
operator_named path g =
    any (names_path path) g.argv || any (λ kv. is_value path (after_equals kv)) g.environ

abbrev pub under_root : Filepath → Text → Option Text → Result PathError Text
under_root fp path none = err no_root
under_root fp path (some root) = ok (fp.clean (fp.join root path))

-- grantedPath
unfoldable pub granted_path : Filepath → Text → Result PathError Text
granted_path fp path = if fp.is_abs path then ok (fp.clean path) else under_root fp path fp.abs_root

abbrev pub on_path :
    Result PathError Text → (Text → Grants) → Grants → Grants × Result PathError Bool
on_path (err e) add g = (g, err e)
on_path (ok full) add g = (add full, ok true)

-- ioGrantRead
unfoldable pub grant_read : Filepath → Text → Grants → Grants × Result PathError Bool
unfolding granted_path operator_named
grant_read fp path g =
    if text_eq path []
    then (g, ok false)
    else if operator_named path g
    then on_path (granted_path fp path) (λ full. record g { files = full ∷ g.files }) g
    else (g, ok false)

-- ioGrantDir
unfoldable pub grant_dir : Filepath → Text → Grants → Grants × Result PathError Bool
unfolding granted_path operator_named
grant_dir fp path g =
    if text_eq path []
    then (g, ok false)
    else if operator_named path g
    then on_path (granted_path fp path) (λ full. record g { dirs = full ∷ g.dirs }) g
    else (g, ok false)

-- GrantDir and GrantFile, for the toolchain that launches a program.
unfoldable pub embed_dir : Filepath → Text → Grants → Grants × Result PathError Bool
unfolding granted_path
embed_dir fp path g = on_path (granted_path fp path) (λ full. record g { dirs = full ∷ g.dirs }) g

unfoldable pub embed_file : Filepath → Text → Grants → Grants × Result PathError Bool
unfolding granted_path
embed_file fp path g =
    on_path (granted_path fp path) (λ full. record g { files = full ∷ g.files }) g

-- The gate at the end of resolveDataPath.
unfoldable pub gate : Text → Text → Grants → Result PathError Text
unfolding is_under covers_dir
gate root full g =
    if is_under root full then ok full else if covers_dir full g then ok full else err escapes

unfoldable pub within : Filepath → Text → Grants → Option Text → Result PathError Text
unfolding gate
within fp path g none = err no_root
within fp path g (some root) =
    gate root (if fp.is_abs path then fp.clean path else fp.clean (fp.join root path)) g

-- resolveDataPath
unfoldable pub resolve_data_path : Filepath → Text → Grants → Result PathError Text
unfolding within
resolve_data_path fp path g =
    if text_eq path [] then err empty_path else within fp path g fp.abs_root

-- Whether resolveReadPath answers a path by a grant alone.
unfoldable pub is_granted : Text → Grants → Bool
unfolding covers_dir
is_granted full g = any (text_eq full) g.files || covers_dir full g

unfoldable pub or_sandbox :
    Result PathError Text → Grants → Result PathError Text → Result PathError Text
unfolding is_granted
or_sandbox (err e) g rest = rest
or_sandbox (ok full) g rest = if is_granted full g then ok full else rest

-- resolveReadPath
unfoldable pub resolve_read_path : Filepath → Text → Grants → Result PathError Text
unfolding granted_path resolve_data_path or_sandbox
resolve_read_path fp path g =
    if text_eq path []
    then resolve_data_path fp path g
    else or_sandbox (granted_path fp path) g (resolve_data_path fp path g)
