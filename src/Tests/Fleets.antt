-- ===== src/Tests/Fleets.antt =====
-- The fleet at concrete inputs.
use embedded_project_pc.Common.{
  ◌-◌, ◌≡◌, refl, List, [], ◌∷◌, ◌++◌, Option, none, some, true, false, if◌then◌else◌,
}
use embedded_project_pc.Common.Text.{Text, same, is_empty}
use embedded_project_pc.Fleet.Console.{ℤ, pos, prompt_line, prompt_int}
use embedded_project_pc.Fleet.Link.{fresh_link}
use embedded_project_pc.Fleet.Submarine.{
  Submarine, combat, Combat, Outside, new_base, new_combat, add_participant, has_participant,
  contains, set_assigned, is_assigned, serial_of, base_of, combat_assign, connect_to,
}
use embedded_project_pc.Fleet.Registry.{
  Fleet, find_by_serial, find_combat, as_combat, modify, on_combat,
}
use embedded_project_pc.Fleet.Operations.{
  message_sent, assign, added, associated, mission_assigned, add_type, assign_found,
  associate_first, associate_second, add_submarine, assign_mission, associate_combat_submarines,
  associate_pair, send_message,
}
use embedded_project_pc.Fleet.Operations.Links.{linked, has}
use embedded_project_pc.Fleet.Operations.Consistent.{IsConsistent}
use embedded_project_pc.Fleet.Operations.Messages.{inbox, send_message-linked}
use embedded_project_pc.Fleet.Menu.{adding, assigning, associating, perform, Reachable, empty, next}
use embedded_project_pc.Fleet.Menu.Runs.{Reachable-IsConsistent}

-- std::stoi on one digit, and no socket.
digit : Text → Option ℤ
digit [] = none
digit (c ∷ cs) = some (pos (c - 48))

abbrev world : Outside
world = record { stoi = digit; lnc_connect = λ host port. none }

on_mission : Text → List Text → Submarine
on_mission serial others = combat (record {
  base = record { serial_number = serial; name = []; assigned_to_mission = true };
  mission_description = 77 ∷ [];
  commander_name = [];
  personnel_count = pos 3;
  link = fresh_link;
  participating = others;
  mission_history = [];
  received_messages = [];
})

-- Two combat submarines, A and B, are added, assigned and associated.
abbrev a : Text
a = 65 ∷ []

abbrev b : Text
b = 66 ∷ []

abbrev two : Text
two = 50 ∷ []

unassigned : Text → Submarine
unassigned serial = combat (record {
  base = record { serial_number = serial; name = []; assigned_to_mission = false };
  mission_description = [];
  commander_name = [];
  personnel_count = pos 0;
  link = fresh_link;
  participating = [];
  mission_history = [];
  received_messages = [];
})

-- serial number, name and type
abbrev add_lines : Text → List Text
add_lines serial = serial ∷ [] ∷ two ∷ []

-- serial number, mission, commander, personnel, and no host
abbrev assign_lines : Text → List Text
assign_lines serial = serial ∷ (77 ∷ []) ∷ [] ∷ (51 ∷ []) ∷ [] ∷ []

abbrev pair : Fleet
pair = on_mission a (b ∷ []) ∷ on_mission b (a ∷ []) ∷ []

pair-Reachable : Reachable world pair
unfolding perform add_submarine add_type assign_mission assign_found assign combat_assign connect_to
    associate_combat_submarines associate_first associate_second associate_pair find_by_serial
    find_combat as_combat modify on_combat add_participant has_participant contains new_combat
    new_base set_assigned is_assigned serial_of base_of prompt_line prompt_int digit on_mission
    unassigned same is_empty
pair-Reachable =
    next associating (on_mission a [] ∷ on_mission b [] ∷ []) pair associated (a ∷ b ∷ []) []
      (next assigning (on_mission a [] ∷ unassigned b ∷ []) _ mission_assigned (assign_lines b) []
        (next assigning (unassigned a ∷ unassigned b ∷ []) _ mission_assigned (assign_lines a) []
          (next adding (unassigned a ∷ []) _ added (add_lines b) []
            (next adding [] _ added (add_lines a) [] empty refl) refl)
          refl)
        refl)
      refl

Reachable-IsConsistent_example : IsConsistent pair
Reachable-IsConsistent_example = Reachable-IsConsistent world pair pair-Reachable

pair-IsConsistent : IsConsistent pair
pair-IsConsistent = Reachable-IsConsistent world pair pair-Reachable

abbrev combat_of : Text → Combat
combat_of serial = record {
  base = record { serial_number = serial; name = []; assigned_to_mission = false };
  mission_description = [];
  commander_name = [];
  personnel_count = pos 0;
  link = fresh_link;
  participating = [];
  mission_history = [];
  received_messages = [];
}

abbrev apart : Fleet
apart = unassigned a ∷ unassigned b ∷ []

send_message-linked_example :
    (fleet' : Fleet) × ((send_message pair (a ∷ b ∷ (72 ∷ []) ∷ [])
        ≡ some ((fleet', message_sent), []))
      × ((x : Text)
          → inbox fleet' x ≡ (
              if same b x
              then inbox pair x ++ record { content = 72 ∷ []; sender_serial_number = a } ∷ []
              else inbox pair x)))
unfolding linked has find_by_serial serial_of base_of same on_mission has_participant contains
send_message-linked_example = send_message-linked pair a b (72 ∷ []) [] pair-IsConsistent refl
