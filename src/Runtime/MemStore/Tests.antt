-- ===== src/Runtime/MemStore/Tests.antt =====
-- A table of two rows, two sessions, and a transaction whose second write fails.
use fct.Base.{
  ℕ, suc, String, ◌≡◌, refl, true, Option, none, some, [], ◌∷◌, ◌++◌, string_eq, nat_eq, Map, List,
  lookup, insert,
}
use fct.Runtime.MemStore.{Row, Session, load, save, save_in, sweep, purge_expired_sessions, commit}
use fct.Runtime.MemStore.Sessions.{Finds, sessions-Finds}
use fct.Runtime.MemStore.Commit.{commit-fails}

abbrev docs : Map String (List (Row String))
docs = ("Doc", record { id = 1; value = "a" } ∷ record { id = 2; value = "b" } ∷ []) ∷ []

abbrev edited : Row String
edited = record { id = 2; value = "c" }

edited_in_place :
    save "Doc" edited docs ≡ ("Doc", record { id = 1; value = "a" } ∷ edited ∷ []) ∷ []
unfolding save save_in load lookup insert
edited_in_place = refl

abbrev ada : Session
ada = record {
  actor = "ada";
  role = "user";
  verified = true;
  visitor = "v";
  pending_mfa = "";
  expires = 9;
}

abbrev signed_in : Map String Session
signed_in = ("s", ada) ∷ ("t", record ada { expires = 3 }) ∷ []

purged : purge_expired_sessions 5 signed_in ≡ ("s", ada) ∷ []
unfolding sweep
purged = refl

sessions-Finds_example : Finds "s" "v" "ada" "admin" ada 5 signed_in "t"
unfolding lookup
sessions-Finds_example = sessions-Finds "s" "v" "ada" "admin" ada 5 signed_in "t" (refl, (refl, tt))

abbrev adds : ℕ → ℕ × Option String
adds n = (suc n, none)

abbrev refuses : ℕ → ℕ × Option String
refuses n = (n, some "restricted")

abbrev one_add : List (ℕ → ℕ × Option String)
one_add = adds ∷ []

commit-fails_example : commit (one_add ++ refuses ∷ one_add) 0 ≡ (1, some "restricted")
unfolding commit
commit-fails_example = commit-fails one_add one_add refuses 0 1 1 "restricted" refl refl
