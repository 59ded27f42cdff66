-- ===== src/Hndl/Inputs.antt =====
-- What `load_hndl_inputs` keeps of the rows.
use hybrid_tls_lab.Prelude.{
  ◌≡◌, refl, ◌∙◌, Option, none, some, true, false, List, [], ◌∷◌, inl, inr, if◌then◌else◌,
  Bool-cases,
}
use hybrid_tls_lab.Prelude.Dict.{Dict, lookup, lookup-insert}
use hybrid_tls_lab.Prelude.Text.{Text, text_eq, is_empty}
use hybrid_tls_lab.Hndl.{
  HndlRow, HndlInput, clean, input_of, add_input, add_inputs, load_hndl_inputs,
}

abbrev later_or : Option HndlRow → Text → HndlRow → Option HndlRow
later_or (some later) k row = some later
later_or none k row = if text_eq (clean row.target) k then some row else none

-- The last row for a target.
abbrev pub last_row : Text → List HndlRow → Option HndlRow
last_row k [] = none
last_row k (row ∷ rows) = later_or (last_row k rows) k row

abbrev pub row_or : Option HndlRow → Option HndlInput → Option HndlInput
row_or (some row) d = some (input_of row)
row_or none d = d

text_eq-empty : (s k : Text) → is_empty s ≡ true → is_empty k ≡ false → text_eq s k ≡ false
text_eq-empty [] [] e h = cc
text_eq-empty [] (c ∷ k) e h = refl
text_eq-empty (c ∷ s) k e h = cc

lookup-add_input :
    (k : Text) (d : Dict HndlInput) (row : HndlRow)
    → is_empty k ≡ false
    → lookup k (add_input d row)
      ≡ (if text_eq (clean row.target) k then some (input_of row) else lookup k d)
unfolding add_input
lookup-add_input k d row h = elim (Bool-cases (is_empty (clean row.target))) [
  | inl blank ↦ rw (blank, text_eq-empty (clean row.target) k blank h)
  | inr named ↦ rw named (lookup-insert (clean row.target) k (input_of row) d)
]

row_or-add :
    (later : Option HndlRow) (k : Text) (d : Dict HndlInput) (row : HndlRow)
    → lookup k (add_input d row)
      ≡ (if text_eq (clean row.target) k then some (input_of row) else lookup k d)
    → row_or later (lookup k (add_input d row)) ≡ row_or (later_or later k row) (lookup k d)
row_or-add (some r) k d row h = refl
row_or-add none k d row h = elim (Bool-cases (text_eq (clean row.target) k)) [
  | inl e ↦ h ∙ rw e
  | inr e ↦ h ∙ rw e
]

lookup-add_inputs :
    (k : Text) (d : Dict HndlInput) (rows : List HndlRow)
    → is_empty k ≡ false
    → lookup k (add_inputs d rows) ≡ row_or (last_row k rows) (lookup k d)
unfolding add_inputs
lookup-add_inputs k d [] h = refl
lookup-add_inputs k d (row ∷ rows) h =
    lookup-add_inputs k (add_input d row) rows h
    ∙ row_or-add (last_row k rows) k d row (lookup-add_input k d row h)

-- The entry of a target whose name is not empty comes from the last row that names it, and a
-- target that no row names has none.
pub load_hndl_inputs-last_row :
    (k : Text) (rows : List HndlRow)
    → is_empty k ≡ false
    → lookup k (load_hndl_inputs (some rows)) ≡ row_or (last_row k rows) none
unfolding load_hndl_inputs lookup
load_hndl_inputs-last_row k rows h = lookup-add_inputs k [] rows h
