-- ===== src/Fleet/Operations/Missions.antt =====
-- What AssignMission and UpdateMissionDetails of a submarine leave alone, whatever is typed in.
use embedded_project_pc.Common.{List, some, true, ◌≡◌, arith, Option-cases, inl, inr}
use embedded_project_pc.Common.Text.{Text}
use embedded_project_pc.Fleet.Submarine.{
  Submarine, research, combat, Combat, Research, Outside, serial_of, is_assigned, set_assigned,
  base_of, connect_to, combat_assign, combat_update, research_assign, research_update,
  has_participant,
}
use embedded_project_pc.Fleet.Operations.{assign, update}
use embedded_project_pc.Fleet.Operations.Links.{has}

connect_to_keeps :
    (world : Outside) (c c' : Combat) (host : Text) (lines rest : List Text)
    → connect_to world c host lines ≡ some (c', rest)
    → (c'.base ≡ c.base) × (c'.participating ≡ c.participating)
unfolding connect_to
connect_to_keeps world c c' host lines rest e = ground arith

combat_assign_keeps :
    (world : Outside) (c c' : Combat) (lines rest : List Text)
    → combat_assign world c lines ≡ some (c', rest)
    → (c'.base.serial_number ≡ c.base.serial_number)
      × (c'.base.assigned_to_mission ≡ true)
      × (c'.participating ≡ c.participating)
unfolding combat_assign set_assigned
combat_assign_keeps world c c' lines rest e = ground (arith, connect_to_keeps world)

combat_update_keeps :
    (world : Outside) (c c' : Combat) (lines rest : List Text)
    → combat_update world c lines ≡ some (c', rest)
    → (c'.base ≡ c.base) × (c'.participating ≡ c.participating)
unfolding combat_update
combat_update_keeps world c c' lines rest e = ground arith

research_assign_keeps :
    (r r' : Research) (lines rest : List Text)
    → research_assign r lines ≡ some (r', rest)
    → (r'.base.serial_number ≡ r.base.serial_number) × (r'.base.assigned_to_mission ≡ true)
unfolding research_assign set_assigned
research_assign_keeps r r' lines rest e = ground arith

research_update_keeps :
    (r r' : Research) (lines rest : List Text)
    → research_update r lines ≡ some (r', rest)
    → r'.base ≡ r.base
unfolding research_update
research_update_keeps r r' lines rest e = ground arith

-- AssignMission marks the submarine, whatever is typed in.
pub assign_keeps :
    (world : Outside) (s s' : Submarine) (lines rest : List Text)
    → assign world s lines ≡ some (s', rest)
    → (serial_of s' ≡ serial_of s)
      × (is_assigned s' ≡ true)
      × ((y : Text) → has (some s') y ≡ has (some s) y)
unfolding assign serial_of is_assigned base_of has has_participant
assign_keeps world (research r) s' lines rest e = elim (Option-cases (research_assign r lines)) [
  | inl ended ↦ ground arith
  | inr ((r', left), read) ↦ ground (arith, research_assign_keeps r r' lines left read)
]
assign_keeps world (combat c) s' lines rest e = elim (Option-cases (combat_assign world c lines)) [
  | inl ended ↦ ground arith
  | inr ((c', left), read) ↦ ground (arith, combat_assign_keeps world c c' lines left read)
]

pub update_keeps :
    (world : Outside) (s s' : Submarine) (lines rest : List Text)
    → update world s lines ≡ some (s', rest)
    → (serial_of s' ≡ serial_of s)
      × (is_assigned s' ≡ is_assigned s)
      × ((y : Text) → has (some s') y ≡ has (some s) y)
unfolding update serial_of is_assigned base_of has has_participant
update_keeps world (research r) s' lines rest e = elim (Option-cases (research_update r lines)) [
  | inl ended ↦ ground arith
  | inr ((r', left), read) ↦ ground (arith, research_update_keeps r r' lines left read)
]
update_keeps world (combat c) s' lines rest e = elim (Option-cases (combat_update world c lines)) [
  | inl ended ↦ ground arith
  | inr ((c', left), read) ↦ ground (arith, combat_update_keeps world c c' lines left read)
]
