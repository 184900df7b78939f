-- ===== src/Fleet/Menu.antt =====
-- oop_fleet/main.cpp: the menu's choices that change the fleet, and the fleets that they lead to.
pub mod Preserves
pub mod Missions
pub mod Combats
pub mod Runs
use embedded_project_pc.Common.{List, [], ◌≡◌, some}
use embedded_project_pc.Common.Text.{Text}
use embedded_project_pc.Fleet.Console.{Console}
use embedded_project_pc.Fleet.Submarine.{Outside}
use embedded_project_pc.Fleet.Registry.{Fleet}
use embedded_project_pc.Fleet.Operations.{
  Done, Report, add_submarine, assign_mission, update_mission_details, end_mission,
  associate_combat_submarines, send_message, display_received_messages,
}

pub data Choice : Type 0 where
  adding assigning updating ending associating sending showing : Choice

-- The calls of main's switch.
unfoldable pub perform : Outside → Choice → Fleet → Console Done
perform world adding = add_submarine world
perform world assigning = assign_mission world
perform world updating = update_mission_details world
perform world ending = end_mission
perform world associating = associate_combat_submarines
perform world sending = send_message
perform world showing = display_received_messages

-- The fleets that main's loop reaches from the empty one, whatever lines are typed in.
pub data Reachable (world : Outside) : Fleet → Type 0 where
  empty : Reachable world []
  next :
      (choice : Choice) (fleet fleet' : Fleet) (report : Report) (lines rest : List Text)
      → Reachable world fleet
      → perform world choice fleet lines ≡ some ((fleet', report), rest)
      → Reachable world fleet'
