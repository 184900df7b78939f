-- ===== src/Fleet/Submarine.antt =====
-- oop_fleet/submarine.cpp, research_submarine.cpp and combat_submarine.cpp: the class hierarchy as
-- data, with a constructor for each derived class, and its methods.
use embedded_project_pc.Common.{
  ℕ, ◌-◌, ◌%◌, ◌^◌, List, [], ◌∷◌, ◌++◌, Option, none, some, Bool, true, false, ◌||◌, ◌==◌,
  if◌then◌else◌,
}
use embedded_project_pc.Common.Text.{Text, same, is_empty}
use embedded_project_pc.Fleet.Console.{
  ℤ, pos, negsuc, Console, ◌>>=◌, return, prompt_line, prompt_int,
}
use embedded_project_pc.Fleet.Link.{Link, fresh_link, connect, disconnect}

-- The fields of the base class.
pub record Base : Type 0 where
  pub serial_number : Text
  pub name : Text
  pub assigned_to_mission : Bool

pub record Research : Type 0 where
  pub base : Base
  pub research_topic : Text
  pub researchers : List Text

pub record Message : Type 0 where
  pub content : Text
  pub sender_serial_number : Text

pub record Combat : Type 0 where
  pub base : Base
  pub mission_description : Text
  pub commander_name : Text
  pub personnel_count : ℤ
  pub link : Link
  pub participating : List Text
  pub mission_history : List Text
  pub received_messages : List Message

pub data Submarine : Type 0 where
  research : Research → Submarine
  combat : Combat → Submarine

-- Submarine's accessors, over both classes.
unfoldable pub base_of : Submarine → Base
base_of (research r) = r.base
base_of (combat c) = c.base

unfoldable pub serial_of : Submarine → Text
unfolding base_of
serial_of s = (base_of s).serial_number

unfoldable pub is_assigned : Submarine → Bool
unfolding base_of
is_assigned s = (base_of s).assigned_to_mission

unfoldable pub set_assigned : Bool → Base → Base
set_assigned assigned b = record b { assigned_to_mission = assigned }

-- The constructors of the classes.
unfoldable pub new_base : Text → Text → Base
new_base serial name = record { serial_number = serial; name = name; assigned_to_mission = false }

unfoldable pub new_research : Text → Text → Submarine
unfolding new_base
new_research serial name =
    research (record { base = new_base serial name; research_topic = []; researchers = [] })

unfoldable pub new_combat : Text → Text → Submarine
unfolding new_base
new_combat serial name = combat (record {
  base = new_base serial name;
  mission_description = [];
  commander_name = [];
  personnel_count = pos 0;
  link = fresh_link;
  participating = [];
  mission_history = [];
  received_messages = [];
})

-- ResearchSubmarine::AddResearchers: lines up to a blank one, or to the end of the input.
unfoldable pub add_researchers : List Text → Console (List Text)
add_researchers names [] = some (names, [])
add_researchers names (line ∷ rest) =
    let more = add_researchers (names ++ line ∷ []) rest in
    if is_empty line then some (names, rest) else more

unfoldable pub research_assign : Research → Console Research
unfolding set_assigned
research_assign r = do
  topic ← prompt_line
  names ← add_researchers r.researchers
  return (record { base = set_assigned true r.base; research_topic = topic; researchers = names })

-- `answer[0] == 'y' || answer[0] == 'Y'`
says_yes : Text → Bool
says_yes [] = false
says_yes (c ∷ rest) = c == b'y' || c == b'Y'

keep_blank : Text → Text → Text
keep_blank old new = if is_empty new then old else new

unfoldable pub research_update : Research → Console Research
unfolding says_yes keep_blank
research_update r = do
  topic ← prompt_line
  answer ← prompt_line
  names ← (if says_yes answer then add_researchers r.researchers else return r.researchers)
  return (record r { research_topic = keep_blank r.research_topic topic; researchers = names })

unfoldable pub research_end : Research → Research
unfolding set_assigned
research_end r = record { base = set_assigned false r.base; research_topic = []; researchers = [] }

-- `(uint16_t)port`
unfoldable pub to_u16 : ℤ → ℕ
to_u16 (pos n) = n % 2 ^ 16
to_u16 (negsuc n) = 2 ^ 16 - 1 - n % 2 ^ 16

-- What the program takes from outside: std::stoi, and the socket that CcCore_LncConnect gives for a
-- host and a port.
pub record Outside : Type 0 where
  pub stoi : Text → Option ℤ
  pub lnc_connect : Text → ℕ → Option ℕ

module _ (world : Outside) where
  unfoldable pub connect_to : Combat → Text → Console Combat
  unfolding to_u16
  connect_to c host = if is_empty host then return c else do
    port ← prompt_int world.stoi
    return (record c {
      link = (connect c.base.serial_number (world.lnc_connect host (to_u16 port)) c.link).0;
    })

  unfoldable pub combat_assign : Combat → Console Combat
  unfolding set_assigned connect_to
  combat_assign c = do
    mission ← prompt_line
    commander ← prompt_line
    personnel ← prompt_int world.stoi
    host ← prompt_line
    connect_to
        (record c {
          base = set_assigned true c.base;
          mission_description = mission;
          commander_name = commander;
          personnel_count = personnel;
        })
        host

  -- A blank line, and one that is no number, leave the count as it is.
  new_count : ℤ → Text → ℤ
  new_count old line =
      if is_empty line then old else (elim (world.stoi line) [ none ↦ old | some n ↦ n ])

  unfoldable pub combat_update : Combat → Console Combat
  unfolding keep_blank new_count
  combat_update c = do
    mission ← prompt_line
    commander ← prompt_line
    count ← prompt_line
    return (record c {
      mission_description = keep_blank c.mission_description mission;
      commander_name = keep_blank c.commander_name commander;
      personnel_count = new_count c.personnel_count count;
    })

unfoldable pub combat_end : Combat → Combat
unfolding set_assigned
combat_end c = record c {
  base = set_assigned false c.base;
  mission_description = [];
  commander_name = [];
  personnel_count = pos 0;
  link = disconnect c.link;
  participating = [];
  mission_history =
      (if is_empty c.mission_description
        then c.mission_history
        else c.mission_history ++ c.mission_description ∷ []);
}

-- std::find over the participating list.
unfoldable pub contains : List Text → Text → Bool
contains [] other = false
contains (x ∷ xs) other = same x other || contains xs other

-- The erase-remove idiom: every occurrence goes.
unfoldable pub without : List Text → Text → List Text
without [] other = []
without (x ∷ xs) other = if same x other then without xs other else x ∷ without xs other

unfoldable pub has_participant : Combat → Text → Bool
has_participant c other = contains c.participating other

unfoldable pub add_participant : Text → Combat → Combat
unfolding has_participant
add_participant other c =
    if same other c.base.serial_number
    then c
    else (if has_participant c other
        then c
        else record c { participating = c.participating ++ other ∷ [] })

unfoldable pub remove_participant : Text → Combat → Combat
remove_participant other c = record c { participating = without c.participating other }

unfoldable pub receive_message : Text → Text → Combat → Combat
receive_message sender content c = record c {
  received_messages =
      c.received_messages ++ record { content = content; sender_serial_number = sender } ∷ [];
}
