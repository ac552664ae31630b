-- ===== src/Ir/Placement/Tests.antt =====
-- A client action that reads the clock, a gated one, and one that touches both sides.
use fct.Base.{refl, false, true, none, [], ◌∷◌, ok, err, ◌≡◌, lookup}
use fct.Ir.Placement.{
  server, client, Facts, States, client_only, gated_client, reads_client, place, server_reason,
  body_reason, writes_only_client_state,
}
use fct.Ir.Placement.Sound.{IsSafe, place-IsSafe}

abbrev states : States
states = ("seen", client) ∷ ("total", server) ∷ []

abbrev mark_seen : Facts
mark_seen = record {
  reads = [];
  writes = "seen" ∷ [];
  requires = [];
  server_builtin = none;
  ent_write = false;
  uses_print = false;
  uses_secret = false;
  impure = true;
  calls_service = false;
  is_stand_in = false;
  calls_proc = false;
  establishes_id = false;
  sets_header = false;
  has_ret = false;
  emits_event = false;
}

mark_seen_placed : place states mark_seen ≡ ok (record { placement = client; reason = client_only })
unfolding place server_reason body_reason writes_only_client_state lookup
mark_seen_placed = refl

both_sides :
    place states (record mark_seen { writes = "total" ∷ []; reads = "seen" ∷ [] })
    ≡ err (reads_client "seen")
unfolding place server_reason body_reason writes_only_client_state lookup
both_sides = refl

place-IsSafe_example : IsSafe states mark_seen client
place-IsSafe_example =
    place-IsSafe states mark_seen (record { placement = client; reason = client_only })
      mark_seen_placed

-- A policy does not move an action to the server.
abbrev gated : Facts
gated = record mark_seen { writes = []; impure = false; requires = "staff" ∷ [] }

gated_refused : place states gated ≡ err gated_client
unfolding place server_reason body_reason writes_only_client_state lookup
gated_refused = refl
