-- ===== src/Fleet/Menu/Missions.antt =====
-- Assigning, updating and ending a mission keep the invariant, with any input.
use embedded_project_pc.Common.{Option, none, some, ◌≡◌, ◌∙◌, refl}
use embedded_project_pc.Common.Text.{Text}
use embedded_project_pc.Fleet.Console.{prompt_line}
use embedded_project_pc.Fleet.Submarine.{Submarine, Outside, is_assigned}
use embedded_project_pc.Fleet.Registry.{Fleet, find_by_serial, modify}
use embedded_project_pc.Fleet.Registry.Lookup.{find-serial}
use embedded_project_pc.Fleet.Operations.{
  no_submarine, already_assigned, mission_assigned, updated, not_assigned, assign, assign_found,
  assign_mission, update, update_found, update_mission_details, end_found, end_mission,
}
use embedded_project_pc.Fleet.Operations.Missions.{assign_keeps, update_keeps}
use embedded_project_pc.Fleet.Operations.Consistent.{IsConsistent, write-IsConsistent}
use embedded_project_pc.Fleet.Operations.Ending.{end_found-IsConsistent}
use embedded_project_pc.Fleet.Menu.Preserves.{
  Preserves, Preserves-return, Preserves-bind, Preserves-if,
}

assign_found-Preserves :
    (world : Outside) (fleet : Fleet) (serial : Text) (found : Option Submarine)
    → IsConsistent fleet
    → find_by_serial serial fleet ≡ found
    → Preserves (assign_found world fleet serial found)
unfolding assign_found
assign_found-Preserves world fleet serial none c e = Preserves-return (fleet, no_submarine) c
assign_found-Preserves world fleet serial (some s) c e =
    Preserves-if (is_assigned s) _ _ (λ _. Preserves-return (fleet, already_assigned) c)
      (λ free. Preserves-bind (assign world s) _ (λ s' lines rest read.
        let (same_serial, is, same_list) = assign_keeps world s s' lines rest read in
        Preserves-return (modify serial (λ _. s') fleet, mission_assigned)
          (write-IsConsistent serial (λ _. s') fleet s e
            (λ t h. same_serial ∙ find-serial serial fleet s e) same_list (λ _. is) c)))

pub assign_mission-Preserves :
    (world : Outside) (fleet : Fleet) → IsConsistent fleet → Preserves (assign_mission world fleet)
unfolding assign_mission
assign_mission-Preserves world fleet c =
    Preserves-bind prompt_line _ (λ serial _ _ _.
      assign_found-Preserves world fleet serial (find_by_serial serial fleet) c refl)

update_found-Preserves :
    (world : Outside) (fleet : Fleet) (serial : Text) (found : Option Submarine)
    → IsConsistent fleet
    → find_by_serial serial fleet ≡ found
    → Preserves (update_found world fleet serial found)
unfolding update_found
update_found-Preserves world fleet serial none c e = Preserves-return (fleet, no_submarine) c
update_found-Preserves world fleet serial (some s) c e =
    Preserves-if (is_assigned s) _ _
      (λ is. Preserves-bind (update world s) _ (λ s' lines rest read.
        let (same_serial, same_flag, same_list) = update_keeps world s s' lines rest read in
        Preserves-return (modify serial (λ _. s') fleet, updated)
          (write-IsConsistent serial (λ _. s') fleet s e
            (λ t h. same_serial ∙ find-serial serial fleet s e) same_list (λ h. same_flag ∙ h) c)))
      (λ _. Preserves-return (fleet, not_assigned) c)

pub update_mission_details-Preserves :
    (world : Outside) (fleet : Fleet)
    → IsConsistent fleet
    → Preserves (update_mission_details world fleet)
unfolding update_mission_details
update_mission_details-Preserves world fleet c =
    Preserves-bind prompt_line _ (λ serial _ _ _.
      update_found-Preserves world fleet serial (find_by_serial serial fleet) c refl)

pub end_mission-Preserves : (fleet : Fleet) → IsConsistent fleet → Preserves (end_mission fleet)
unfolding end_mission
end_mission-Preserves fleet c = Preserves-bind prompt_line _ (λ serial _ _ _.
    Preserves-return (end_found fleet serial (find_by_serial serial fleet))
      (end_found-IsConsistent fleet serial c))
