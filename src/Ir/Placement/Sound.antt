-- ===== src/Ir/Placement/Sound.antt =====
-- Neither side touches what only the other holds, and the browser runs nothing that it cannot.
use fct.Base.{
  ◌≡◌, inl, inr, Bool, true, false, none, some, List, [], ◌∷◌, ok, arith, find, All, Option-cases,
  ◌⊎◌,
}
use fct.Ir.Placement.{
  Placement, server, client, Facts, Placed, States, Reason, holds_client, holds_server,
  writes_only_client_state, body_reason, server_reason, settle, place,
}

find-none {ℓ} :
    {A : Type ℓ} (p : A → Bool) (xs : List A) → find p xs ≡ none → All (λ x. p x ≡ false) xs
find-none p [] h = tt
find-none p (x ∷ xs) h = ground (arith, find-none p xs)

-- What the authority may touch: no client-only cell.
pub record IsServerSafe (states : States) (f : Facts) : Type 0 where
  pub reads : All (λ x. holds_client states x ≡ false) f.reads
  pub writes : All (λ x. holds_client states x ≡ false) f.writes

-- What the browser may run: nothing that is the authority's alone.
pub record IsClientSafe (states : States) (f : Facts) : Type 0 where
  pub writes : All (λ x. holds_server states x ≡ false) f.writes
  pub ungated : f.requires ≡ []
  pub mirrored : f.server_builtin ≡ none
  pub no_entity : f.ent_write ≡ false
  pub no_print : f.uses_print ≡ false
  pub no_secret : f.uses_secret ≡ false
  pub agreed : (f.impure ≡ false) ⊎ (writes_only_client_state f.writes states ≡ true)
  pub no_service : f.calls_service ≡ false
  pub no_stand_in : f.is_stand_in ≡ false
  pub no_proc : f.calls_proc ≡ false
  pub no_identity : f.establishes_id ≡ false
  pub no_header : f.sets_header ≡ false
  pub no_reply : f.has_ret ≡ false
  pub no_event : f.emits_event ≡ false

abbrev pub IsSafe : States → Facts → Placement → Type 0
IsSafe states f server = IsServerSafe states f
IsSafe states f client = IsClientSafe states f

server-safe :
    (states : States) (f : Facts) (r : Reason) (a : Placed)
    → settle states f (some r) ≡ ok a
    → (a.placement ≡ server) × IsServerSafe states f
server-safe states f r a h =
    ground
      (arith, find-none (holds_client states) f.reads, find-none (holds_client states) f.writes)

client-safe :
    (states : States) (f : Facts)
    → server_reason states f ≡ none
    → f.requires ≡ []
    → IsClientSafe states f
unfolding server_reason body_reason
client-safe states f h g = ground (arith, find-none (holds_server states) f.writes)

-- An action that the compiler places is safe where it is placed: on the server it neither reads nor
-- writes a client cell; in the browser it writes no server cell, has no policy to pass, calls nothing
-- that only the authority implements, does none of the body's server-only work, and is impure only
-- if it writes some state and client state alone.
pub place-IsSafe :
    (states : States) (f : Facts) (a : Placed) → place states f ≡ ok a → IsSafe states f a.placement
unfolding place
place-IsSafe states f a h = elim (Option-cases (server_reason states f)) [
  | inl e ↦ ground (arith, e, client-safe states f)
  | inr (r, e) ↦ ground (arith, e, server-safe states f r a)
]
