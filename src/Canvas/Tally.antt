-- ===== src/Canvas/Tally.antt =====
-- How often a drawing strokes a line, makes a circle and closes a path.
use feedo.Base.{
  ◌≡◌, refl, ◌∙◌, ℕ, suc, ◌+◌, List, [], ◌∷◌, ◌++◌, some, Bool, true, false, length, if◌then◌else◌,
  get_elem?, arith, Bool-cases, inl, inr,
}
use feedo.Canvas.{Command, stroke, arc, close_path, Drawing, then_draw, draw_each}

abbrev pub total : {A : Type 0} → (A → ℕ) → List A → ℕ
total size [] = 0
total size (x ∷ xs) = size x + total size xs

pub total-one : {A : Type 0} (xs : List A) → total (λ x. 1) xs ≡ length xs
total-one [] = refl
total-one (x ∷ xs) = let later = total-one xs in omega arith

pub total-zero : {A : Type 0} (xs : List A) → total (λ x. 0) xs ≡ 0
total-zero [] = refl
total-zero (x ∷ xs) = let later = total-zero xs in omega arith

module _ {F : Type 0} where
  abbrev pub is_stroke : Command F → Bool
  is_stroke stroke = true
  is_stroke _ = false

  abbrev pub is_arc : Command F → Bool
  is_arc (arc x y radius from to) = true
  is_arc _ = false

  abbrev pub is_close : Command F → Bool
  is_close close_path = true
  is_close _ = false

  unfoldable pub count : (Command F → Bool) → List (Command F) → ℕ
  count p [] = 0
  count p (c ∷ commands) = let later = count p commands in if p c then suc later else later

  count-append :
      (p : Command F → Bool) (a b : List (Command F)) → count p (a ++ b) ≡ count p a + count p b
  unfolding count
  count-append p [] b = omega arith
  count-append p (c ∷ a) b =
      let later = count-append p a b in
      elim (Bool-cases (p c)) [ inl hit ↦ rw hit (omega arith) | inr miss ↦ rw miss (omega arith) ]

  -- Nothing throws, and there are so many lines, circles and closed paths.
  abbrev pub Draws : ℕ → ℕ → ℕ → Drawing F → Type 0
  Draws lines circles closed drawing =
      (commands : List (Command F)) × (drawing ≡ some commands)
      × (count is_stroke commands ≡ lines)
      × (count is_arc commands ≡ circles)
      × (count is_close commands ≡ closed)

  pub Draws-then_draw :
      {l c p l' c' p' : ℕ} (first later : Drawing F)
      → Draws l c p first
      → Draws l' c' p' later
      → Draws (l + l') (c + c') (p + p') (then_draw first later)
  unfolding then_draw
  Draws-then_draw first later (a, is, strokes, arcs, closes) (b, is', strokes', arcs', closes') =
      let split_strokes = count-append is_stroke a b in
      let split_arcs = count-append is_arc a b in
      let split_closes = count-append is_close a b in
      (a ++ b, rw (is, is') refl, omega arith, omega arith, omega arith)

  -- The same counts, written in another way.
  pub Draws-exact :
      {l c p l' c' p' : ℕ} (drawing : Drawing F)
      → l ≡ l'
      → c ≡ c'
      → p ≡ p'
      → Draws l c p drawing
      → Draws l' c' p' drawing
  Draws-exact drawing e₁ e₂ e₃ (commands, is, lines, circles, closed) =
      (commands, is, lines ∙ e₁, circles ∙ e₂, closed ∙ e₃)

  pub Draws-draw_each :
      {A : Type 0} (draw : A → Drawing F) (lines circles closed : A → ℕ) (xs : List A)
      → ((k : ℕ) (x : A)
          → get_elem? xs k ≡ some x
          → Draws (lines x) (circles x) (closed x) (draw x))
      → Draws (total lines xs) (total circles xs) (total closed xs) (draw_each draw xs)
  unfolding draw_each count
  Draws-draw_each draw lines circles closed [] h = ([], refl, refl, refl, refl)
  Draws-draw_each draw lines circles closed (x ∷ xs) h =
      Draws-then_draw (draw x) (draw_each draw xs) (h 0 x refl)
        (Draws-draw_each draw lines circles closed xs (λ k. h (suc k)))
