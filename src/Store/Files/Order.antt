-- ===== src/Store/Files/Order.antt =====
-- data_collection.cpp: the order of the names, and the place of the latest file.
use embedded_project_pc.Common.{
  ◌≡◌, refl, ap, ◌∙◌, List, [], ◌∷◌, ◌++◌, true, false, if◌then◌else◌, All, arith,
}
use embedded_project_pc.Common.Text.{Text}
use embedded_project_pc.Store.Files.{File, less, insert, sort}

pub less_irrefl : (s : Text) → less s s ≡ false
unfolding less
less_irrefl [] = refl
less_irrefl (a ∷ s) = ground (arith, less_irrefl s)

pub less_asym : (s t : Text) → less s t ≡ true → less t s ≡ false
unfolding less
less_asym s [] h = ground arith
less_asym [] (b ∷ t) h = refl
less_asym (a ∷ s) (b ∷ t) h = ground (arith, less_asym s t)

-- A file of an earlier day.
abbrev pub Earlier : Text → File → Type 0
Earlier today f = less f.name today ≡ true

insert-All :
    (P : File → Type 0) (f : File) (files : List File) → P f → All P files → All P (insert f files)
unfolding insert
insert-All P f [] h hs = (h, hs)
insert-All P f (g ∷ files) h (hg, hs) =
    elim (less g.name f.name) as (λ b. All P (if b then g ∷ insert f files else f ∷ (g ∷ files))) [
      | true ↦ (hg, insert-All P f files h hs)
      | false ↦ (h, (hg, hs))
    ]

pub sort-All : (P : File → Type 0) (files : List File) → All P files → All P (sort files)
unfolding sort
sort-All P [] hs = hs
sort-All P (f ∷ files) (h, hs) = insert-All P f (sort files) h (sort-All P files hs)

insert_last :
    (f : File) (files : List File) → All (Earlier f.name) files → insert f files ≡ files ++ f ∷ []
unfolding insert
insert_last f [] h = refl
insert_last f (g ∷ files) (e, h) = ground (arith, e, insert_last f files h)

insert_front :
    (f g : File) (files : List File)
    → Earlier g.name f
    → insert f (files ++ g ∷ []) ≡ insert f files ++ g ∷ []
unfolding insert
insert_front f g [] e = ground (arith, less_asym f.name g.name e)
insert_front f g (x ∷ files) e = ground (arith, insert_front f g files e)

-- Wherever the latest file stands in the directory, it is the last of the sorted files.
pub sort_last :
    (f : File) (before after : List File)
    → All (Earlier f.name) before
    → All (Earlier f.name) after
    → sort (before ++ f ∷ after) ≡ sort (before ++ after) ++ f ∷ []
unfolding sort
sort_last f [] after hb ha = insert_last f (sort after) (sort-All (Earlier f.name) after ha)
sort_last f (g ∷ before) after (e, hb) ha =
    ap (insert g) (sort_last f before after hb ha) ∙ insert_front g f (sort (before ++ after)) e
