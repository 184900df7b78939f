-- ===== src/Fleet/Menu/Combats.antt =====
-- Associating, sending and showing keep the invariant, with any input.
use embedded_project_pc.Common.{
  Option, none, some, true, ◌≡◌, ◌∙◌, refl, arith, Bool-cases, inl, inr,
}
use embedded_project_pc.Common.Text.{Text}
use embedded_project_pc.Fleet.Console.{prompt_line}
use embedded_project_pc.Fleet.Submarine.{
  combat, Combat, is_assigned, base_of, has_participant, receive_message,
}
use embedded_project_pc.Fleet.Registry.{Fleet, find_combat, modify, on_combat}
use embedded_project_pc.Fleet.Operations.{
  not_assigned, no_combat, message_sent, not_participating, associate_second, associate_first,
  associate_combat_submarines, send_between, send_from, send_message, shown_messages,
  display_received_messages,
}
use embedded_project_pc.Fleet.Operations.Links.{has}
use embedded_project_pc.Fleet.Operations.Consistent.{IsConsistent, write-IsConsistent}
use embedded_project_pc.Fleet.Operations.Associating.{associate_pair-IsConsistent, find_combat-find}
use embedded_project_pc.Fleet.Operations.Messages.{keeps_receive}
use embedded_project_pc.Fleet.Menu.Preserves.{
  Preserves, Preserves-return, Preserves-bind, Preserves-if,
}

associate_second-IsConsistent :
    (fleet : Fleet) (x y : Text) (a : Combat) (found : Option Combat)
    → IsConsistent fleet
    → find_combat x fleet ≡ some a
    → a.base.assigned_to_mission ≡ true
    → find_combat y fleet ≡ found
    → IsConsistent (associate_second fleet a found).0
unfolding associate_second
associate_second-IsConsistent fleet x y a none c e on f = c
associate_second-IsConsistent fleet x y a (some b) c e on f =
    elim (Bool-cases b.base.assigned_to_mission) [
      | inl on_too ↦
          ground (arith, on_too, associate_pair-IsConsistent fleet x y a b e f on on_too c)
      | inr off ↦ ground (arith, off, c)
    ]

associate_first-Preserves :
    (fleet : Fleet) (x : Text) (found : Option Combat)
    → IsConsistent fleet
    → find_combat x fleet ≡ found
    → Preserves (associate_first fleet found)
unfolding associate_first
associate_first-Preserves fleet x none c e = Preserves-return (fleet, no_combat) c
associate_first-Preserves fleet x (some a) c e =
    Preserves-if a.base.assigned_to_mission _ _
      (λ on. Preserves-bind prompt_line _ (λ y _ _ _.
        Preserves-return (associate_second fleet a (find_combat y fleet))
          (associate_second-IsConsistent fleet x y a (find_combat y fleet) c e on refl)))
      (λ _. Preserves-return (fleet, not_assigned) c)

pub associate-Preserves :
    (fleet : Fleet) → IsConsistent fleet → Preserves (associate_combat_submarines fleet)
unfolding associate_combat_submarines
associate-Preserves fleet c =
    Preserves-bind prompt_line _
      (λ serial _ _ _. associate_first-Preserves fleet serial (find_combat serial fleet) c refl)

received-IsConsistent :
    (fleet : Fleet) (to sender content : Text) (receiver : Combat)
    → IsConsistent fleet
    → find_combat to fleet ≡ some receiver
    → IsConsistent (modify to (on_combat (receive_message sender content)) fleet)
unfolding on_combat receive_message has has_participant is_assigned base_of
received-IsConsistent fleet to sender content receiver c e =
    write-IsConsistent to (on_combat (receive_message sender content)) fleet (combat receiver)
      (find_combat-find to fleet receiver e) (λ t h. keeps_receive sender content t ∙ h) (λ y. refl)
      (λ on. on) c

send_between-Preserves :
    (fleet : Fleet) (sender : Combat) (to : Text) (found : Option Combat)
    → IsConsistent fleet
    → find_combat to fleet ≡ found
    → Preserves (send_between fleet sender to found)
unfolding send_between
send_between-Preserves fleet sender to none c e = Preserves-return (fleet, no_combat) c
send_between-Preserves fleet sender to (some receiver) c e =
    Preserves-if (has_participant sender to) _ _
      (λ _. Preserves-bind prompt_line _ (λ content _ _ _.
        Preserves-return (_, message_sent)
          (received-IsConsistent fleet to sender.base.serial_number content receiver c e)))
      (λ _. Preserves-return (fleet, not_participating) c)

send_from-Preserves :
    (fleet : Fleet) (found : Option Combat) → IsConsistent fleet → Preserves (send_from fleet found)
unfolding send_from
send_from-Preserves fleet none c = Preserves-return (fleet, no_combat) c
send_from-Preserves fleet (some sender) c =
    Preserves-bind prompt_line _
      (λ to _ _ _. send_between-Preserves fleet sender to (find_combat to fleet) c refl)

pub send_message-Preserves : (fleet : Fleet) → IsConsistent fleet → Preserves (send_message fleet)
unfolding send_message
send_message-Preserves fleet c =
    Preserves-bind prompt_line _
      (λ serial _ _ _. send_from-Preserves fleet (find_combat serial fleet) c)

shown-IsConsistent :
    (fleet : Fleet) (found : Option Combat)
    → IsConsistent fleet
    → IsConsistent (shown_messages fleet found).0
unfolding shown_messages
shown-IsConsistent fleet none c = c
shown-IsConsistent fleet (some s) c = c

pub show-Preserves :
    (fleet : Fleet) → IsConsistent fleet → Preserves (display_received_messages fleet)
unfolding display_received_messages
show-Preserves fleet c = Preserves-bind prompt_line _ (λ serial _ _ _.
    Preserves-return (shown_messages fleet (find_combat serial fleet))
      (shown-IsConsistent fleet (find_combat serial fleet) c))
