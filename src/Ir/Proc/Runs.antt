-- ===== src/Ir/Proc/Runs.antt =====
-- How a compiled proc body runs (`runStmts`, "loop", "if", "spawn" and "join" of
-- runtime/proccompile.go). A condition may go either way, and a run that ends in a runtime error is
-- no run. The lists hold the handles that were spawned and not yet joined.
use fct.Base.{◌≡◌, ◌≢◌, String, Bool, true, Option, List, ◌∷◌, elem, string_eq}
use fct.Ir.Proc.{
  Stmt, plain, spawn, join, loop, branch, break, continue, ret, Block, end, step, without,
}

pub data Signal : Type 0 where
  next returned broke continued : Signal

mutual
  pub data RunsStmt : List String → Stmt → List String → Signal → Type 0 where
    plains : {p : List String} {bind : Option String} → RunsStmt p (plain bind) p next
    spawns : {p q : List String} {h : String} → q ≡ h ∷ without h p → RunsStmt p (spawn h) q next
    joins :
        {p q : List String} {h : String} {bind : Option String}
        → elem h p ≡ true
        → q ≡ without h p
        → RunsStmt p (join h bind) q next
    loop_ends : {p : List String} {b : Block} → RunsStmt p (loop b) p next
    loop_returns :
        {p q : List String} {b : Block} → RunsBlock p b q returned → RunsStmt p (loop b) q returned
    loop_breaks :
        {p q : List String} {b : Block} → RunsBlock p b q broke → RunsStmt p (loop b) q next
    loop_again :
        {p m q : List String} {b : Block} {s t : Signal}
        → RunsBlock p b m s
        → s ≢ returned
        → s ≢ broke
        → RunsStmt m (loop b) q t
        → RunsStmt p (loop b) q t
    if_then :
        {p q : List String} {b c : Block} {s : Signal}
        → RunsBlock p b q s
        → RunsStmt p (branch b c) q s
    if_else :
        {p q : List String} {b c : Block} {s : Signal}
        → RunsBlock p c q s
        → RunsStmt p (branch b c) q s
    breaks : {p : List String} → RunsStmt p break p broke
    continues : {p : List String} → RunsStmt p continue p continued
    returns : {p : List String} {value : Bool} → RunsStmt p (ret value) p returned

  pub data RunsBlock : List String → Block → List String → Signal → Type 0 where
    falls : {p : List String} → RunsBlock p end p next
    goes :
        {p m q : List String} {st : Stmt} {b : Block} {s : Signal}
        → RunsStmt p st m next
        → RunsBlock m b q s
        → RunsBlock p (step st b) q s
    stops :
        {p q : List String} {st : Stmt} {b : Block} {s : Signal}
        → RunsStmt p st q s
        → s ≢ next
        → RunsBlock p (step st b) q s
