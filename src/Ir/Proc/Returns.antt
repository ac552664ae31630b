-- ===== src/Ir/Proc/Returns.antt =====
-- A body that `stmtsReturnComplete` accepts always returns.
use fct.Base.{◌≡◌, ◌≢◌, refl, String, Bool, true, List, [], ok, arith}
use fct.Ir.Proc.{Stmt, Block, Scope, end, step, proc_block, ends_in_return, stmts_return_complete}
use fct.Ir.Proc.Runs.{
  Signal, next, returned, broke, continued, RunsStmt, RunsBlock, plains, spawns, joins, loop_ends,
  loop_returns, loop_breaks, loop_again, if_then, if_else, breaks, continues, returns, falls, goes,
  stops,
}
use fct.Ir.Proc.Joined.{InScope, block-Joined}

mutual
  unfolding ends_in_return stmts_return_complete

  ends-ne-next :
      {p q : List String} {st : Stmt} {s : Signal}
      → RunsStmt p st q s
      → ends_in_return st ≡ true
      → s ≢ next
  ends-ne-next plains h = cc
  ends-ne-next (spawns f) h = cc
  ends-ne-next (joins m f) h = cc
  ends-ne-next loop_ends h = cc
  ends-ne-next (loop_returns run) h = cc
  ends-ne-next (loop_breaks run) h = cc
  ends-ne-next (loop_again run nr nb more) h = cc
  ends-ne-next (if_then run) h = ground (arith, complete-ne-next run)
  ends-ne-next (if_else run) h = ground (arith, complete-ne-next run)
  ends-ne-next breaks h = cc
  ends-ne-next continues h = cc
  ends-ne-next returns h = λ e. cc

  complete-ne-next :
      {p q : List String} {b : Block} {s : Signal}
      → RunsBlock p b q s
      → stmts_return_complete b ≡ true
      → s ≢ next
  complete-ne-next falls h = cc
  complete-ne-next (goes {b = end} one more) h = λ e. ends-ne-next one h refl
  complete-ne-next (goes {b = step s b} one more) h = complete-ne-next more h
  complete-ne-next (stops one brk) h = brk

returned_of : (s : Signal) → InScope 0 s → s ≢ next → s ≡ returned
returned_of next i h = absurd (h refl)
returned_of returned i h = refl
returned_of broke i h = elim i [ ]
returned_of continued i h = elim i [ ]

abbrev pub fresh : List String → Scope
fresh params = record { locals = params; tasks = []; pending = [] }

-- Of a proc body that the control checks accept (its parameters for locals) and whose last statement
-- passes `stmtsReturnComplete`, every run that ends does so by a `return`, and no spawned task is
-- left unjoined.
pub complete_returns :
    (has_ret : Bool) (params : List String) (b : Block) {q : List String} {s : Signal}
    → proc_block has_ret 0 (fresh params) b ≡ ok tt
    → stmts_return_complete b ≡ true
    → RunsBlock [] b q s
    → (s ≡ returned) × (q ≡ [])
complete_returns r params b {q} {s} accepted complete run =
    let (joined, inside) = block-Joined run r 0 (fresh params) refl accepted in
    (returned_of s inside (complete-ne-next run complete), joined)
