-- ===== src/Ir/Proc/Tests.antt =====
-- A body that spawns a task, joins it and returns on both arms of an `if`, and a run of it.
use fct.Base.{◌≡◌, refl, String, true, some, List, [], ◌∷◌, ok, err}
use fct.Ir.Proc.{
  Block, spawn, join, branch, break, ret, end, step, proc_block, stmts_return_complete, unjoined,
  outside_loop,
}
use fct.Ir.Proc.Runs.{returned, RunsBlock, spawns, joins, if_else, returns, goes, stops}
use fct.Ir.Proc.Returns.{fresh, complete_returns}

abbrev give : Block
give = step (ret true) end

abbrev both_arms : Block
both_arms = step (spawn "h") (step (join "h" (some "r")) (step (branch give give) end))

both_arms_accepted : proc_block true 0 (fresh ("n" ∷ [])) both_arms ≡ ok tt
unfolding proc_block
both_arms_accepted = refl

both_arms_complete : stmts_return_complete both_arms ≡ true
unfolding stmts_return_complete
both_arms_complete = refl

both_arms_run : RunsBlock [] both_arms [] returned
both_arms_run =
    goes (spawns refl)
      (goes (joins refl refl) (stops (if_else (stops returns (λ e. cc))) (λ e. cc)))

complete_returns_example : (returned ≡ returned) × (◌≡◌ {A = List String} [] [])
complete_returns_example =
    complete_returns true ("n" ∷ []) both_arms both_arms_accepted both_arms_complete both_arms_run

-- A task may not be pending when a block branches, and `break` stands in a loop.
refused :
    (proc_block true 0 (fresh []) (step (spawn "h") (step (branch give give) end)) ≡ err unjoined)
    × (proc_block true 0 (fresh []) (step break end) ≡ err outside_loop)
unfolding proc_block
refused = (refl, refl)
