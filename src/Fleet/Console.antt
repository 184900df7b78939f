-- ===== src/Fleet/Console.antt =====
-- oop_fleet/submarine.cpp: PromptLine and PromptInt. The console is the list of the lines still to
-- come; what is printed is left out.
use embedded_project_pc.Common.{ℕ, List, [], ◌∷◌, Option, none, some}
use embedded_project_pc.Common.Text.{Text}

-- std::stoi gives an int or throws; `negsuc n` is -(n + 1).
pub data ℤ : Type 0 where
  pos : ℕ → ℤ
  negsuc : ℕ → ℤ

-- A call that reads lines. `none` means that it never returns.
abbrev pub Console : Type 0 → Type 0
Console A = List Text → Option (A × List Text)

infixl 5 ◌>>=◌
abbrev pub ◌>>=◌ : {A B : Type 0} → Console A → (A → Console B) → Console B
◌>>=◌ m f lines = elim (m lines) [ none ↦ none | some (a, rest) ↦ f a rest ]

abbrev pub return : {A : Type 0} → A → Console A
return a lines = some (a, lines)

-- At the end of the input std::getline leaves the line empty.
unfoldable pub prompt_line : Console Text
prompt_line [] = some ([], [])
prompt_line (line ∷ rest) = some (line, rest)

-- The loop asks again until std::stoi accepts the line. At the end of the input it reads empty lines
-- for ever.
unfoldable pub prompt_int : (Text → Option ℤ) → Console ℤ
prompt_int stoi [] = elim (stoi []) [ none ↦ none | some n ↦ some (n, []) ]
prompt_int stoi (line ∷ rest) = elim (stoi line) [
  | none ↦ prompt_int stoi rest
  | some n ↦ some (n, rest)
]
