-- ===== src/Fleet/Menu/Preserves.antt =====
-- Calls that keep the invariant of the fleet, put together as the console puts calls together;
-- Fleet::AddSubmarine is one.
use embedded_project_pc.Common.{
  List, [], ◌∷◌, ◌++◌, Option, none, some, Bool, true, false, if◌then◌else◌, ◌≡◌, ◌∙◌, sym, refl,
  arith, Option-cases, inl, inr,
}
use embedded_project_pc.Common.Text.{Text}
use embedded_project_pc.Fleet.Console.{
  ℤ, pos, negsuc, Console, ◌>>=◌, return, prompt_line, prompt_int,
}
use embedded_project_pc.Fleet.Submarine.{
  Submarine, Outside, serial_of, base_of, contains, has_participant, new_research, new_combat,
  new_base,
}
use embedded_project_pc.Fleet.Registry.{Fleet, find_by_serial}
use embedded_project_pc.Fleet.Registry.Lookup.{find-append, append-Distinct}
use embedded_project_pc.Fleet.Operations.{Done, Report, serial_exists, add_type, add_submarine}
use embedded_project_pc.Fleet.Operations.Links.{has, linked}
use embedded_project_pc.Fleet.Operations.Consistent.{marked, assigned, IsConsistent}

-- The calls that keep the invariant, whatever lines are typed in.
pub Preserves : Console Done → Type 0
Preserves call =
    (lines : List Text) (fleet : Fleet) (report : Report) (rest : List Text)
    → call lines ≡ some ((fleet, report), rest)
    → IsConsistent fleet

pub Preserves-IsConsistent :
    (call : Console Done) (lines : List Text) (fleet : Fleet) (report : Report) (rest : List Text)
    → Preserves call
    → call lines ≡ some ((fleet, report), rest)
    → IsConsistent fleet
unfolding Preserves
Preserves-IsConsistent call lines fleet report rest p e = p lines fleet report rest e

pub Preserves-return : (done : Done) → IsConsistent done.0 → Preserves (return done)
unfolding Preserves
Preserves-return (fleet, report) c lines fleet' report' rest e = ground (arith, c, e)

pub Preserves-bind :
    {A : Type 0} (m : Console A) (f : A → Console Done)
    → ((a : A) (lines rest : List Text) → m lines ≡ some (a, rest) → Preserves (f a))
    → Preserves (m >>= f)
unfolding Preserves
Preserves-bind m f h lines fleet report rest e = elim (Option-cases (m lines)) [
  | inl ended ↦ ground (arith, ended, e)
  | inr ((a, left), read) ↦ h a lines left read left fleet report rest (ground (arith, read, e))
]

pub Preserves-if :
    (test : Bool) (m n : Console Done)
    → (test ≡ true → Preserves m)
    → (test ≡ false → Preserves n)
    → Preserves (if test then m else n)
Preserves-if true m n h h' = h refl
Preserves-if false m n h h' = h' refl

-- A new submarine has no list, and is in none.
linked-new :
    (fleet : Fleet) (s : Submarine) (x y : Text)
    → ((y : Text) → has (some s) y ≡ false)
    → linked (fleet ++ s ∷ []) x y ≡ linked fleet x y
unfolding linked has
linked-new fleet s x y h = ground (arith, find-append fleet s x, h y)

assigned-new :
    (fleet : Fleet) (s : Submarine) (x : Text)
    → assigned fleet x ≡ true
    → assigned (fleet ++ s ∷ []) x ≡ true
unfolding assigned marked
assigned-new fleet s x h = ground (arith, find-append fleet s x, h)

new-IsConsistent :
    (fleet : Fleet) (s : Submarine)
    → find_by_serial (serial_of s) fleet ≡ none
    → ((y : Text) → has (some s) y ≡ false)
    → IsConsistent fleet
    → IsConsistent (fleet ++ s ∷ [])
new-IsConsistent fleet s fresh h c = record {
  symmetric = λ x y. linked-new fleet s x y h ∙ c.symmetric x y ∙ sym (linked-new fleet s y x h);
  irreflexive = λ x. linked-new fleet s x x h ∙ c.irreflexive x;
  active = λ x y l. assigned-new fleet s x (c.active x y (sym (linked-new fleet s x y h) ∙ l));
  distinct = append-Distinct fleet s c.distinct fresh;
}

-- Fleet::AddSubmarine.
add_research :
    (fleet : Fleet) (serial name : Text)
    → find_by_serial serial fleet ≡ none
    → IsConsistent fleet
    → IsConsistent (fleet ++ new_research serial name ∷ [])
unfolding serial_of base_of new_research new_base has
add_research fleet serial name fresh c =
    new-IsConsistent fleet (new_research serial name) fresh (λ y. refl) c

add_combat :
    (fleet : Fleet) (serial name : Text)
    → find_by_serial serial fleet ≡ none
    → IsConsistent fleet
    → IsConsistent (fleet ++ new_combat serial name ∷ [])
unfolding serial_of base_of new_combat new_base has has_participant contains
add_combat fleet serial name fresh c =
    new-IsConsistent fleet (new_combat serial name) fresh (λ y. refl) c

add_type-IsConsistent :
    (fleet : Fleet) (serial name : Text) (n : ℤ)
    → find_by_serial serial fleet ≡ none
    → IsConsistent fleet
    → IsConsistent (add_type fleet serial name n).0
unfolding add_type
add_type-IsConsistent fleet serial name (negsuc n) fresh c = c
add_type-IsConsistent fleet serial name (pos n) fresh c =
    ground (arith, c, add_research fleet serial name fresh c, add_combat fleet serial name fresh c)

add_found-Preserves :
    (world : Outside) (fleet : Fleet) (serial : Text) (found : Option Submarine)
    → IsConsistent fleet
    → find_by_serial serial fleet ≡ found
    → Preserves (elim found [
      | some s ↦ return (fleet, serial_exists)
      | none ↦ do
        name ← prompt_line
        type ← prompt_int world.stoi
        return (add_type fleet serial name type)
    ])
add_found-Preserves world fleet serial (some s) c e = Preserves-return (fleet, serial_exists) c
add_found-Preserves world fleet serial none c e = Preserves-bind prompt_line _ (λ name _ _ _.
    Preserves-bind (prompt_int world.stoi) _ (λ n _ _ _.
      Preserves-return (add_type fleet serial name n)
        (add_type-IsConsistent fleet serial name n e c)))

pub add_submarine-Preserves :
    (world : Outside) (fleet : Fleet) → IsConsistent fleet → Preserves (add_submarine world fleet)
unfolding add_submarine
add_submarine-Preserves world fleet c =
    Preserves-bind prompt_line _
      (λ serial _ _ _. add_found-Preserves world fleet serial (find_by_serial serial fleet) c refl)
