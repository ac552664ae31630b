-- ===== src/Ir/Proc/Joined.antt =====
-- An accepted block never ends with a task that is not joined.
use fct.Base.{ℕ, zero, suc, ◌≡◌, ◌≢◌, refl, ◌∙◌, String, Bool, List, [], ◌∷◌, ok, arith, >>=-eq-ok}
use fct.Ir.Proc.{Stmt, Block, Scope, proc_stmt, proc_block, check_spawns_joined, is_end, nested}
use fct.Ir.Proc.Runs.{
  Signal, next, returned, broke, continued, RunsStmt, RunsBlock, plains, spawns, joins, loop_ends,
  loop_returns, loop_breaks, loop_again, if_then, if_else, breaks, continues, returns, falls, goes,
  stops,
}

-- Outside every loop nothing breaks or continues.
abbrev pub InScope : ℕ → Signal → Type 0
InScope zero next = Unit
InScope zero returned = Unit
InScope zero broke = ⊥
InScope zero continued = ⊥
InScope (suc d) s = Unit

joined-eq : (p : List String) {u : Unit {0}} → check_spawns_joined p ≡ ok u → p ≡ []
joined-eq [] h = refl
joined-eq (x ∷ p) h = cc

InScope-next : (d : ℕ) → InScope d next
InScope-next zero = tt
InScope-next (suc d) = tt

mutual
  unfolding proc_stmt proc_block

  stmt-Joined :
      {p q : List String} {st : Stmt} {s : Signal} (run : RunsStmt p st q s) (r : Bool) (d : ℕ)
      (sc sc' : Scope) (last : Bool)
      → p ≡ sc.pending
      → proc_stmt r d sc st last ≡ ok sc'
      → (s ≡ next → q ≡ sc'.pending) × (s ≢ next → q ≡ []) × InScope d s
  stmt-Joined plains r d sc sc' last e h = ground arith
  stmt-Joined (spawns f) r d sc sc' last e h = ground arith
  stmt-Joined (joins m f) r d sc sc' last e h = ground arith
  stmt-Joined loop_ends r d sc sc' last e h = ground (arith, joined-eq sc.pending)
  stmt-Joined (loop_returns {b = b} run) r d sc sc' last e h =
      ground (arith, joined-eq sc.pending, block-Joined run r (suc d) (nested sc))
  stmt-Joined (loop_breaks run) r d sc sc' last e h =
      ground (arith, joined-eq sc.pending, block-Joined run r (suc d) (nested sc))
  stmt-Joined (loop_again run nr nb more) r d sc sc' last e h = ground (
    arith,
    joined-eq sc.pending,
    block-Joined run r (suc d) (nested sc),
    stmt-Joined more r d sc sc' last,
  )
  stmt-Joined (if_then run) r d sc sc' last e h =
      ground (arith, joined-eq sc.pending, block-Joined run r d (nested sc))
  stmt-Joined (if_else run) r d sc sc' last e h =
      ground (arith, joined-eq sc.pending, block-Joined run r d (nested sc))
  stmt-Joined breaks r d sc sc' last e h = ground (arith, joined-eq sc.pending)
  stmt-Joined continues r d sc sc' last e h = ground (arith, joined-eq sc.pending)
  stmt-Joined returns r d sc sc' last e h = ground (arith, joined-eq sc.pending)

  pub block-Joined :
      {p q : List String} {b : Block} {s : Signal} (run : RunsBlock p b q s) (r : Bool) (d : ℕ)
      (sc : Scope) {u : Unit {0}}
      → p ≡ sc.pending
      → proc_block r d sc b ≡ ok u
      → (q ≡ []) × InScope d s
  block-Joined falls r d sc e h = (e ∙ joined-eq sc.pending h, InScope-next d)
  block-Joined (goes {st = st} {b = b} one more) r d sc e h =
      let (sc', first, then) = >>=-eq-ok (proc_stmt r d sc st (is_end b)) _ h in
      block-Joined more r d sc' ((stmt-Joined one r d sc sc' (is_end b) e first).0 refl) then
  block-Joined (stops {st = st} {b = b} one brk) r d sc e h =
      let (sc', first, then) = >>=-eq-ok (proc_stmt r d sc st (is_end b)) _ h in
      let (_, stopped, inside) = stmt-Joined one r d sc sc' (is_end b) e first in
      (stopped brk, inside)
