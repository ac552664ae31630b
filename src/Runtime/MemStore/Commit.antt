-- ===== src/Runtime/MemStore/Commit.antt =====
-- What a commit leaves behind when one of its operations fails.
use fct.Base.{◌≡◌, refl, ap, ◌∙◌, Option, none, some, List, [], ◌∷◌, ◌++◌}
use fct.Runtime.MemStore.{after_op, commit}

module _ {S E : Type 0} where
  after_op-eq :
      (r rest : S × Option E) (m : S)
      → after_op r rest ≡ (m, none)
      → (r.1 ≡ none) × (rest ≡ (m, none))
  after_op-eq (s, none) rest m h = (refl, h)
  after_op-eq (s, some e) rest m h = absurd (cc (ap (λ x. x.1) h))

  after_op-none : (r rest : S × Option E) → r.1 ≡ none → after_op r rest ≡ rest
  after_op-none (s, none) rest h = refl
  after_op-none (s, some e) rest h = absurd (cc)

  after_op-some :
      (r rest : S × Option E) (t : S) (e : E) → r ≡ (t, some e) → after_op r rest ≡ (t, some e)
  after_op-some r rest t e h = rw h refl

  -- A commit is not atomic: if the first operations succeed and the next one fails, the commit fails
  -- with its error and the state that it left, with the writes of those before it, and the operations
  -- after it are not run.
  pub commit-fails :
      (xs ys : List (S → S × Option E)) (op : S → S × Option E) (s m t : S) (e : E)
      → commit xs s ≡ (m, none)
      → op m ≡ (t, some e)
      → commit (xs ++ op ∷ ys) s ≡ (t, some e)
  unfolding commit
  commit-fails [] ys op s m t e h k =
      after_op-some (op s) (commit ys (op s).0) t e (ap (λ x. op x.0) h ∙ k)
  commit-fails (x ∷ xs) ys op s m t e h k =
      let parts = after_op-eq (x s) (commit xs (x s).0) m h in
      after_op-none (x s) (commit (xs ++ op ∷ ys) (x s).0) parts.0
      ∙ commit-fails xs ys op (x s).0 m t e parts.1 k
