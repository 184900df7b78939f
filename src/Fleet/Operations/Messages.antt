-- ===== src/Fleet/Operations/Messages.antt =====
-- What sending a message does, and between whom.
use embedded_project_pc.Common.{
  List, [], ◌∷◌, ◌++◌, Option, none, some, true, false, if◌then◌else◌, ◌≡◌, ◌≢◌, ◌∙◌, sym, refl,
  arith,
}
use embedded_project_pc.Common.Text.{Text, same, same→eq}
use embedded_project_pc.Fleet.Console.{prompt_line}
use embedded_project_pc.Fleet.Submarine.{
  Submarine, research, combat, Combat, Message, serial_of, base_of, has_participant,
  receive_message,
}
use embedded_project_pc.Fleet.Registry.{
  Fleet, find_by_serial, as_combat, find_combat, modify, on_combat,
}
use embedded_project_pc.Fleet.Registry.Lookup.{find-serial, find-modify}
use embedded_project_pc.Fleet.Operations.{
  Report, no_combat, message_sent, not_participating, send_between, send_from, send_message,
}
use embedded_project_pc.Fleet.Operations.Links.{has, linked, linked-has}
use embedded_project_pc.Fleet.Operations.Consistent.{IsConsistent}

pub keeps_receive :
    (sender content : Text) (t : Submarine)
    → serial_of (on_combat (receive_message sender content) t) ≡ serial_of t
unfolding serial_of base_of on_combat receive_message
keeps_receive sender content (research r) = refl
keeps_receive sender content (combat c) = refl

-- The messages that the submarine `x` has received.
messages_of : Option Submarine → List Message
messages_of none = []
messages_of (some (research r)) = []
messages_of (some (combat c)) = c.received_messages

unfoldable pub inbox : Fleet → Text → List Message
unfolding messages_of
inbox fleet x = messages_of (find_by_serial x fleet)

inbox-receive :
    (fleet : Fleet) (to sender content x : Text) (receiver : Combat)
    → find_by_serial to fleet ≡ some (combat receiver)
    → inbox (modify to (on_combat (receive_message sender content)) fleet) x ≡ (
        if same to x
        then inbox fleet x ++ record { content = content; sender_serial_number = sender } ∷ []
        else inbox fleet x)
unfolding inbox messages_of on_combat receive_message
inbox-receive fleet to sender content x receiver e = ground (
  arith,
  find-modify to (on_combat (receive_message sender content)) fleet x
      (λ t h. keeps_receive sender content t ∙ h),
  same→eq to x,
  e,
)

-- A list makes the submarine a combat submarine.
has_list :
    (found : Option Submarine) (y : Text)
    → has found y ≡ true
    → (c : Combat) × ((found ≡ some (combat c)) × (has_participant c y ≡ true))
unfolding has
has_list none y e = ground arith
has_list (some (research r)) y e = ground arith
has_list (some (combat c)) y e = (c, (refl, e))

-- In a consistent fleet a submarine that has another in its list can send it any message: the
-- message is sent, the other's received messages grow by the text with the sender's serial number,
-- and no other submarine receives anything.
pub send_message-linked :
    (fleet : Fleet) (from to content : Text) (rest : List Text)
    → IsConsistent fleet
    → linked fleet from to ≡ true
    → (fleet' : Fleet) × ((send_message fleet (from ∷ to ∷ content ∷ rest)
          ≡ some ((fleet', message_sent), rest))
        × ((x : Text)
            → inbox fleet' x ≡ (
                if same to x
                then inbox fleet x ++ record { content = content; sender_serial_number = from } ∷ []
                else inbox fleet x)))
unfolding send_message send_from send_between prompt_line find_combat as_combat serial_of base_of
send_message-linked fleet from to content rest c e =
    let (a, (from_found, is_linked)) =
      has_list (find_by_serial from fleet) to (sym (linked-has fleet from to) ∙ e) in
    let (b, (to_found, back)) =
      has_list (find_by_serial to fleet) from
        (sym (linked-has fleet to from) ∙ (c.symmetric to from ∙ e)) in
    let own = find-serial from fleet (combat a) from_found in
    (
      modify to (on_combat (receive_message from content)) fleet,
      (
        ground (arith, own, from_found, to_found, is_linked),
        λ x. inbox-receive fleet to from content x b to_found,
      ),
    )

send_between-unlinked :
    (fleet : Fleet) (a : Combat) (to : Text) (lines : List Text) (found : Option Combat)
    → has (some (combat a)) to ≡ false
    → (report : Report) × ((rest : List Text) × ((send_between fleet a to found lines
            ≡ some ((fleet, report), rest))
          × (report ≢ message_sent)))
unfolding send_between has
send_between-unlinked fleet a to lines none e = (no_combat, (lines, (refl, λ h. ground arith)))
send_between-unlinked fleet a to lines (some b) e =
    (not_participating, (lines, (ground (arith, e), λ h. ground arith)))

-- `from`'s list decides; where `from` is no combat submarine, `to` is not even read.
send_from-unlinked :
    (fleet : Fleet) (to : Text) (lines : List Text) (found : Option Submarine)
    → has found to ≡ false
    → (report : Report) × ((rest : List Text) × ((send_from fleet (as_combat found) (to ∷ lines)
            ≡ some ((fleet, report), rest))
          × (report ≢ message_sent)))
unfolding send_from as_combat prompt_line
send_from-unlinked fleet to lines none e = (no_combat, (to ∷ lines, (refl, λ h. ground arith)))
send_from-unlinked fleet to lines (some (research r)) e =
    (no_combat, (to ∷ lines, (refl, λ h. ground arith)))
send_from-unlinked fleet to lines (some (combat a)) e =
    send_between-unlinked fleet a to lines (find_combat to fleet) e

-- A submarine without the other in its list sends it nothing: the fleet is left as it was, and the
-- report is another.
pub send_message-unlinked :
    (fleet : Fleet) (from to : Text) (lines : List Text)
    → linked fleet from to ≡ false
    → (report : Report) × ((rest : List Text) × ((send_message fleet (from ∷ to ∷ lines)
            ≡ some ((fleet, report), rest))
          × (report ≢ message_sent)))
unfolding send_message prompt_line find_combat linked
send_message-unlinked fleet from to lines e =
    send_from-unlinked fleet to lines (find_by_serial from fleet) e
