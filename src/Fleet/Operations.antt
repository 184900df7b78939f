-- ===== src/Fleet/Operations.antt =====
-- oop_fleet/fleet.cpp: the menu operations that change the fleet, and the one that shows messages.
pub mod Associating
pub mod Consistent
pub mod Ending
pub mod Links
pub mod Messages
pub mod Missions
use embedded_project_pc.Common.{
  List, [], ◌∷◌, ◌++◌, Option, none, some, Bool, true, false, ◌==◌, if◌then◌else◌,
}
use embedded_project_pc.Common.Text.{Text, same}
use embedded_project_pc.Fleet.Console.{
  ℤ, pos, negsuc, Console, ◌>>=◌, return, prompt_line, prompt_int,
}
use embedded_project_pc.Fleet.Submarine.{
  Submarine, research, combat, Combat, Message, Outside, serial_of, is_assigned, new_research,
  new_combat, research_assign, research_update, research_end, combat_assign, combat_update,
  combat_end, has_participant, add_participant, remove_participant, receive_message,
}
use embedded_project_pc.Fleet.Registry.{Fleet, find_by_serial, find_combat, modify, on_combat}

-- What an operation reports on the console at its end.
pub data Report : Type 0 where
  serial_exists unknown_type added no_submarine already_assigned mission_assigned : Report
  not_assigned updated mission_ended no_combat associated not_participating : Report
  message_sent unknown_choice exiting : Report
  messages_shown : List Message → Report

abbrev pub Done : Type 0
Done = Fleet × Report

-- Fleet::AddSubmarine, once the type is read.
unfoldable pub add_type : Fleet → Text → Text → ℤ → Done
add_type fleet serial name (negsuc n) = (fleet, unknown_type)
add_type fleet serial name (pos n) =
    if n == 1
    then (fleet ++ new_research serial name ∷ [], added)
    else (if n == 2 then (fleet ++ new_combat serial name ∷ [], added) else (fleet, unknown_type))

module _ (world : Outside) where
  unfoldable pub add_submarine : Fleet → Console Done
  unfolding add_type
  add_submarine fleet = do
    serial ← prompt_line
    elim (find_by_serial serial fleet) [
      | some s ↦ return (fleet, serial_exists)
      | none ↦ do
        name ← prompt_line
        type ← prompt_int world.stoi
        return (add_type fleet serial name type)
    ]

  -- The virtual AssignMission and UpdateMissionDetails.
  unfoldable pub assign : Submarine → Console Submarine
  assign (research r) = do r' ← research_assign r; return (research r')
  assign (combat c) = do c' ← combat_assign world c; return (combat c')

  unfoldable pub update : Submarine → Console Submarine
  update (research r) = do r' ← research_update r; return (research r')
  update (combat c) = do c' ← combat_update world c; return (combat c')

  -- The tests of Fleet::AssignMission behind FindBySerial.
  unfoldable pub assign_found : Fleet → Text → Option Submarine → Console Done
  unfolding assign
  assign_found fleet serial none = return (fleet, no_submarine)
  assign_found fleet serial (some s) =
      if is_assigned s
      then return (fleet, already_assigned)
      else do s' ← assign s; return (modify serial (λ _. s') fleet, mission_assigned)

  unfoldable pub assign_mission : Fleet → Console Done
  unfolding assign_found
  assign_mission fleet = do
    serial ← prompt_line
    assign_found fleet serial (find_by_serial serial fleet)

  unfoldable pub update_found : Fleet → Text → Option Submarine → Console Done
  unfolding update
  update_found fleet serial none = return (fleet, no_submarine)
  update_found fleet serial (some s) =
      if is_assigned s
      then (do s' ← update s; return (modify serial (λ _. s') fleet, updated))
      else return (fleet, not_assigned)

  unfoldable pub update_mission_details : Fleet → Console Done
  unfolding update_found
  update_mission_details fleet = do
    serial ← prompt_line
    update_found fleet serial (find_by_serial serial fleet)

-- The loop of Fleet::EndMission: the ending submarine leaves the list of each participant that is
-- still a combat submarine of the fleet.
unfoldable pub leave_all : List Text → Text → Fleet → Fleet
leave_all [] serial fleet = fleet
leave_all (other ∷ others) serial fleet =
    leave_all others serial (modify other (on_combat (remove_participant serial)) fleet)

-- The virtual EndMission.
unfoldable pub end_one : Submarine → Submarine
end_one (research r) = research (research_end r)
end_one (combat c) = combat (combat_end c)

-- The links of a combat submarine are taken apart first.
unfoldable pub end_links : Submarine → Fleet → Fleet
end_links (research r) fleet = fleet
end_links (combat c) fleet = leave_all c.participating c.base.serial_number fleet

unfoldable pub end_found : Fleet → Text → Option Submarine → Done
end_found fleet serial none = (fleet, no_submarine)
end_found fleet serial (some s) =
    if is_assigned s
    then (modify serial end_one (end_links s fleet), mission_ended)
    else (fleet, not_assigned)

unfoldable pub end_mission : Fleet → Console Done
end_mission fleet = do
  serial ← prompt_line
  return (end_found fleet serial (find_by_serial serial fleet))

-- Fleet::AssociateCombatSubmarines: both pointers are found before the lists change.
unfoldable pub associate_pair : Combat → Combat → Fleet → Fleet
associate_pair a b fleet =
    modify b.base.serial_number (on_combat (add_participant a.base.serial_number))
      (modify a.base.serial_number (on_combat (add_participant b.base.serial_number)) fleet)

unfoldable pub associate_second : Fleet → Combat → Option Combat → Done
associate_second fleet a none = (fleet, no_combat)
associate_second fleet a (some b) =
    if b.base.assigned_to_mission
    then (associate_pair a b fleet, associated)
    else (fleet, not_assigned)

unfoldable pub associate_first : Fleet → Option Combat → Console Done
associate_first fleet none = return (fleet, no_combat)
associate_first fleet (some a) =
    if a.base.assigned_to_mission
    then (do serial ← prompt_line; return (associate_second fleet a (find_combat serial fleet)))
    else return (fleet, not_assigned)

unfoldable pub associate_combat_submarines : Fleet → Console Done
unfolding associate_first
associate_combat_submarines fleet = do
  serial ← prompt_line
  associate_first fleet (find_combat serial fleet)

-- Fleet::SendMessage: the sender, the receiver, the test, the text.
unfoldable pub send_between : Fleet → Combat → Text → Option Combat → Console Done
send_between fleet sender to none = return (fleet, no_combat)
send_between fleet sender to (some receiver) =
    if has_participant sender to
    then (do
      content ← prompt_line
      return (
        modify to (on_combat (receive_message sender.base.serial_number content)) fleet,
        message_sent,
      ))
    else return (fleet, not_participating)

unfoldable pub send_from : Fleet → Option Combat → Console Done
unfolding send_between
send_from fleet none = return (fleet, no_combat)
send_from fleet (some sender) = do
  to ← prompt_line
  send_between fleet sender to (find_combat to fleet)

unfoldable pub send_message : Fleet → Console Done
unfolding send_from
send_message fleet = do serial ← prompt_line; send_from fleet (find_combat serial fleet)

unfoldable pub shown_messages : Fleet → Option Combat → Done
shown_messages fleet none = (fleet, no_combat)
shown_messages fleet (some c) = (fleet, messages_shown c.received_messages)

unfoldable pub display_received_messages : Fleet → Console Done
unfolding shown_messages
display_received_messages fleet = do
  serial ← prompt_line
  return (shown_messages fleet (find_combat serial fleet))
