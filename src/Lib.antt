-- ===== src/Lib.antt =====
-- Facet: the compiler's checks, the registry's version rules and the authority's state, verified.
--
-- Facet compiles a .fct program to an intermediate representation (internal/ir), resolves remote
-- imports by tag (internal/registry), and runs the result as an authority (runtime) that keeps the
-- working set, the sessions and the background jobs. Nothing here is generated from the Go code: each
-- definition is a translation of the function whose name it carries, in snake case.
--
-- Compiler, internal/parser/expr.go:
--   Parser/Lex     tokenize: the tokens of an expression's text
--   Parser/Expr    parseExpr: precedence climbing, from tokens to expressions
-- Compiler, internal/ir/build.go:
--   Ir/Proc        procBlock: spawn and join of handles, return completeness; Ir/Proc/Runs is the
--                  control flow of runtime/proccompile.go as a relation
--   Ir/Placement   action: where an action is placed, and why
--   Ir/Graph       triggerCycle: the depth-first search for a cycle
--   Ir/RunGraph    checkRunGraph: which actions may call which, on the same search
--   Ir/Lower       lower: from the expressions of the source to those that run
--   Ir/Types       internal/ir/types.go, exprType: the types that the compiler infers
--   Ir/Params      requiredArity: how many arguments a call must give
-- Registry, internal/registry/semver.go:
--   Registry/Semver  parseSemver, cmp, String, isTagForm, selectTag
--   Registry/Ranges  satisfiesRange, satisfiesOne
-- Authority, runtime/:
--   Runtime/Tenancy    tenancy.go and the reserved tables of enterprise.go: a handler is a function from
--                      a state to a state and a reply
--   Runtime/Undo       undo.go: the log of an action's writes and its rollback, with records as cells
--                      of a heap
--   Runtime/Jobs       jobs.go on the queue of memstore.go
--   Runtime/MemStore   memstore.go: rows, sessions, the audit log's tail, transactions
--   Runtime/Deletes    memstore.go: Delete and Clear along the relations, with fuel for the recursion
--   Runtime/Query      memstore.go: Query with its pages, Count, CountBy
--   Runtime/Channel    channel.go: a builtin's work under a channel's mutex is one step; awaitAny is a
--                      step relation with the other tasks' steps in between;
--                      Runtime/Channel/Monitor has the tasks at the mutex and at cond
--   Runtime/Grants     grants.go and resolveDataPath of io.go: which paths the file builtins may name
--   Runtime/Value      eval.go, bytesval.go: values, their conversions, operators, reductions
--   Runtime/Expr       the expressions that are evaluated (internal/ir/ir.go)
--   Runtime/RowIndex   rowindex.go: the rows that an index names for a pinned field
--   Runtime/Eval       eval.go: the evaluator, with rowIndexing as an argument
--   Runtime/ApiCache   resilience.go: the read cache of entity lists
--   Runtime/RateLimit  ratelimit.go: token buckets, lockout
--   Runtime/U64        u64.go: 64-bit patterns read as unsigned
-- Base holds what they share: Boolean tests, lists, association lists for Go maps, results, texts as
-- lists of bytes, decimal numbers.
--
-- Conventions. Go's ints are native natural numbers where the code only counts, with 2 ^ 63 or 2 ^ 64
-- written out where a bound matters. A mutex is taken for the whole handler in the source, so a handler
-- is one step. The clock, random tokens, keyed hashes and the outcome of an action are parameters. The
-- depth-first search has fuel for one visit of each node, and its theorem needs no more; a cascading
-- delete has fuel for one call more than there are rows, its check any fuel; the tokenizer has fuel for
-- one round per byte, the expression parser any fuel from some amount on; printing has fuel for 20
-- digits, which every 64-bit number fits.
--
-- Not modelled: the parser of declarations, the checks that use the inferred types, the generated
-- JavaScript, HTTP, SSE and WebSocket plumbing, the FacetQL store and its SQL, the command line and the
-- editor support. They are mostly input and output. Of the files above, the header of each module says
-- what it leaves out.
pub mod Base
pub mod Ir
pub mod Parser
pub mod Registry
pub mod Runtime
