-- ===== src/Fleet/Menu/Runs.antt =====
-- The invariant holds of every fleet that main's loop reaches.
use embedded_project_pc.Common.{[], refl, arith}
use embedded_project_pc.Fleet.Submarine.{Outside}
use embedded_project_pc.Fleet.Registry.{Fleet, find_by_serial}
use embedded_project_pc.Fleet.Operations.Links.{has, linked}
use embedded_project_pc.Fleet.Operations.Consistent.{IsConsistent, assigned}
use embedded_project_pc.Fleet.Menu.{
  Choice, adding, assigning, updating, ending, associating, sending, showing, perform, Reachable,
  empty, next,
}
use embedded_project_pc.Fleet.Menu.Preserves.{
  Preserves, Preserves-IsConsistent, add_submarine-Preserves,
}
use embedded_project_pc.Fleet.Menu.Missions.{
  assign_mission-Preserves, update_mission_details-Preserves, end_mission-Preserves,
}
use embedded_project_pc.Fleet.Menu.Combats.{
  associate-Preserves, send_message-Preserves, show-Preserves,
}

-- Each choice of the menu, with any lines typed in, keeps the invariant.
pub perform-Preserves :
    (world : Outside) (choice : Choice) (fleet : Fleet)
    → IsConsistent fleet
    → Preserves (perform world choice fleet)
unfolding perform
perform-Preserves world adding fleet c = add_submarine-Preserves world fleet c
perform-Preserves world assigning fleet c = assign_mission-Preserves world fleet c
perform-Preserves world updating fleet c = update_mission_details-Preserves world fleet c
perform-Preserves world ending fleet c = end_mission-Preserves fleet c
perform-Preserves world associating fleet c = associate-Preserves fleet c
perform-Preserves world sending fleet c = send_message-Preserves fleet c
perform-Preserves world showing fleet c = show-Preserves fleet c

empty-IsConsistent : IsConsistent []
unfolding linked has assigned find_by_serial
empty-IsConsistent = record {
  symmetric = λ x y. refl;
  irreflexive = λ x. refl;
  active = λ x y l. ground arith;
  distinct = tt;
}

-- In every fleet that a run of the choices in `Choice` (the menu's, without the displays and the
-- queries) reaches from the empty fleet, with any lines typed in and any answers of std::stoi and of
-- the socket layer: two combat submarines have each other in
-- their lists or neither has; no submarine is in its own list; a submarine with a list is assigned
-- to a mission; and no serial number occurs twice.
pub Reachable-IsConsistent :
    (world : Outside) (fleet : Fleet) → Reachable world fleet → IsConsistent fleet
Reachable-IsConsistent world after empty = empty-IsConsistent
Reachable-IsConsistent world after (next choice before fleet report lines rest r e) =
    Preserves-IsConsistent (perform world choice before) lines fleet report rest
      (perform-Preserves world choice before (Reachable-IsConsistent world before r)) e
