-- ===== src/Ir/Proc.antt =====
-- The control skeleton of a proc body: `procBlock`, `checkSpawnsJoined` and `stmtsReturnComplete` of
-- internal/ir/build.go. A statement that neither branches nor touches a task is `plain`, with the
-- local that it declares; the checks of its expressions and types are left out, so that more bodies
-- pass here than in the compiler. One statement type serves before and after lowering: `procBlock`
-- lowers each statement to one of the same kind.
pub mod Runs
pub mod Joined
pub mod Returns
mod Tests
use fct.Base.{
  ℕ, zero, suc, String, Bool, true, false, not, ◌&&◌, ◌||◌, Option, none, some, List, [], ◌∷◌,
  Result, ok, err, ◌>>=◌, ◌>>◌, guard, elem, keep, ◌==◌, string_eq, if◌then◌else◌,
}

mutual
  pub data Stmt : Type 0 where
    plain : Option String → Stmt
    spawn : String → Stmt
    join : String → Option String → Stmt
    loop : Block → Stmt
    branch : Block → Block → Stmt
    break : Stmt
    continue : Stmt
    ret : Bool → Stmt

  pub data Block : Type 0 where
    end : Block
    step : Stmt → Block → Block

-- The compile errors of the control skeleton.
pub data BuildError : Type 0 where
  unjoined outside_loop not_last return_value needs_value : BuildError
  already_declared undeclared not_a_handle not_pending : String → BuildError

-- What one block has declared: its locals, those that are task handles, and the handles not joined.
pub record Scope : Type 0 where
  pub locals : List String
  pub tasks : List String
  pub pending : List String

abbrev pub is_end : Block → Bool
is_end end = true
is_end (step s b) = false

abbrev pub without : String → List String → List String
without h = keep λ x. not (x == h)

abbrev pub check_spawns_joined : List String → Result BuildError (Unit {0})
check_spawns_joined [] = ok tt
check_spawns_joined (h ∷ p) = err unjoined

-- A statement that binds a result declares a new local.
abbrev pub declare : Option String → Scope → Result BuildError Scope
declare none sc = ok sc
declare (some x) sc = do
  guard (not (elem x sc.locals)) (already_declared x)
  ok (record sc { locals = x ∷ sc.locals })

-- A nested block starts from copies of the locals and types, with no handle pending.
abbrev pub nested : Scope → Scope
nested sc = record sc { pending = [] }

-- `loopDepth == 0` means outside every loop.
abbrev pub in_loop : ℕ → Bool
in_loop zero = false
in_loop (suc n) = true

-- `has_ret`: the proc declares a return type; `last`: nothing follows in the block.
mutual
  pub proc_stmt : Bool → ℕ → Scope → Stmt → Bool → Result BuildError Scope
  proc_stmt has_ret depth sc (plain bind) last = declare bind sc
  proc_stmt has_ret depth sc (spawn h) last = do
    guard (not (elem h sc.locals)) (already_declared h)
    ok (record { locals = h ∷ sc.locals; tasks = h ∷ sc.tasks; pending = h ∷ without h sc.pending })
  proc_stmt has_ret depth sc (join h bind) last = do
    guard (elem h sc.locals) (undeclared h)
    guard (elem h sc.tasks) (not_a_handle h)
    guard (elem h sc.pending) (not_pending h)
    declare bind (record sc { pending = without h sc.pending })
  proc_stmt has_ret depth sc (loop body) last = do
    check_spawns_joined sc.pending
    proc_block has_ret (suc depth) (nested sc) body
    ok sc
  proc_stmt has_ret depth sc (branch body other) last = do
    check_spawns_joined sc.pending
    proc_block has_ret depth (nested sc) body
    proc_block has_ret depth (nested sc) other
    ok sc
  proc_stmt has_ret depth sc break last = do
    check_spawns_joined sc.pending
    guard (in_loop depth) outside_loop
    guard last not_last
    ok sc
  proc_stmt has_ret depth sc continue last = do
    check_spawns_joined sc.pending
    guard (in_loop depth) outside_loop
    guard last not_last
    ok sc
  proc_stmt has_ret depth sc (ret value) last = do
    check_spawns_joined sc.pending
    guard last not_last
    guard (has_ret || not value) return_value
    guard (not has_ret || value) needs_value
    ok sc

  pub proc_block : Bool → ℕ → Scope → Block → Result BuildError (Unit {0})
  proc_block has_ret depth sc end = check_spawns_joined sc.pending
  proc_block has_ret depth sc (step s rest) = do
    sc' ← proc_stmt has_ret depth sc s (is_end rest)
    proc_block has_ret depth sc' rest

-- Whether every path through a block reaches a `return`, judged by its last statement.
mutual
  pub ends_in_return : Stmt → Bool
  ends_in_return (ret value) = true
  ends_in_return (branch body other) =
      not (is_end other) && (stmts_return_complete body && stmts_return_complete other)
  ends_in_return (plain bind) = false
  ends_in_return (spawn h) = false
  ends_in_return (join h bind) = false
  ends_in_return (loop body) = false
  ends_in_return break = false
  ends_in_return continue = false

  pub stmts_return_complete : Block → Bool
  stmts_return_complete end = false
  stmts_return_complete (step s rest) =
      if is_end rest then ends_in_return s else stmts_return_complete rest
