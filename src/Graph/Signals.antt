-- ===== src/Graph/Signals.antt =====
-- The loop over the signals, which removes the list's elements while it goes down, and what a
-- plain pass over the list gives.
use feedo.Base.{
  ◌≡◌, refl, ap, ◌∙◌, ℕ, zero, suc, Option, none, some, List, [], ◌∷◌, inl, inr, if◌then◌else◌,
  length, get_elem?, Bool-cases, Option-cases,
}
use feedo.Graph.{Ops, Signal, progressed, arrived, remove, update, update_down}

module _ {F : Type 0} (ops : Ops F) where
  -- Every signal goes on, and those that have arrived are gone.
  unfoldable pub advance_all : List (Signal F) → List (Signal F)
  advance_all [] = []
  advance_all (s ∷ signals) =
      let rest = advance_all signals in if arrived ops s then rest else progressed ops s ∷ rest

  -- A list behind its first element.
  abbrev pub with_first : Signal F → Option (List (Signal F)) → Option (List (Signal F))
  with_first s none = none
  with_first s (some rest) = some (s ∷ rest)

  pub update-cons :
      (i : ℕ) (s : Signal F) (signals : List (Signal F))
      → update ops (suc i) (s ∷ signals) ≡ with_first s (update ops i signals)
  unfolding update remove
  update-cons i s signals = elim (Option-cases (get_elem? signals i)) [
    | inl beyond ↦ rw (update, beyond) refl
    | inr (t, there) ↦ elim (Bool-cases (arrived ops t)) [
      | inl done ↦ rw (update, there, done) refl
      | inr running ↦ rw (update, there, running) refl
    ]
  ]

  -- The rest of the list is visited first.
  abbrev then_first : Signal F → Option (List (Signal F)) → Option (List (Signal F))
  then_first s none = none
  then_first s (some rest) = update ops 0 (s ∷ rest)

  update_down-cons :
      (n : ℕ) (s : Signal F) (signals : List (Signal F))
      → update_down ops (suc n) (s ∷ signals) ≡ then_first s (update_down ops n signals)
  unfolding update_down update
  update_down-cons zero s signals = refl
  update_down-cons (suc n) s signals = elim (Option-cases (update ops n signals)) [
    | inl beyond ↦ rw (update_down, update-cons n s signals, beyond) refl
    | inr (rest, is) ↦ rw (update_down, update-cons n s signals, is) (update_down-cons n s rest)
  ]

  -- The loop that goes down the list of signals and removes from it those that arrive reads no
  -- missing signal, and gives the same list as one pass that moves every signal on and leaves out
  -- those that arrive: none is skipped and the order stays.
  pub update_down-advance_all :
      (signals : List (Signal F))
      → update_down ops (length signals) signals ≡ some (advance_all signals)
  unfolding update_down advance_all update remove
  update_down-advance_all [] = refl
  update_down-advance_all (s ∷ signals) =
      update_down-cons (length signals) s signals
      ∙ ap (then_first s) (update_down-advance_all signals)
