-- ===== src/Terminal/Words.antt =====
-- The words of a line, between separators, and what is in them.
use pocker_backend.Base.{
  ◌≡◌, refl, ap, ◌∙◌, ℕ, List, [], ◌∷◌, ◌++◌, Bool, true, false, ◌||◌, ◌==◌, arith,
}
use pocker_backend.Base.Bytes.{Bytes}
use pocker_backend.Terminal.{contains, starts_with, separators}

abbrev pub is_in : Bytes → ℕ → Bool
is_in [] x = false
is_in (y ∷ ys) x = (x == y) || is_in ys x

-- None of the separators is in the word.
abbrev pub IsWord : Bytes → Bytes → Type 0
IsWord seps [] = Unit
IsWord seps (x ∷ xs) = (is_in seps x ≡ false) × IsWord seps xs

-- What `split` does with `is_any_of`, where the separators are not compressed.
pub record IsSplitting (split : Bytes → Bytes → List Bytes) : Type 0 where
  pub split-word : (seps word : Bytes) → IsWord seps word → split seps word ≡ word ∷ []
  pub split-separator :
      (seps word rest : Bytes) (sep : ℕ)
      → IsWord seps word
      → is_in seps sep ≡ true
      → split seps (word ++ sep ∷ rest) ≡ word ∷ split seps rest

starts_with-append : (p s t : Bytes) → starts_with p s ≡ true → starts_with p (s ++ t) ≡ true
starts_with-append [] s t h = refl
starts_with-append (x ∷ p) [] t h = absurd (cc)
starts_with-append (x ∷ p) (y ∷ s) t h = ground (arith, starts_with-append p s t)

contains_empty : (p t : Bytes) → starts_with p [] ≡ true → contains p t ≡ true
contains_empty [] [] h = refl
contains_empty [] (x ∷ t) h = refl
contains_empty (y ∷ p) t h = absurd (cc)

pub contains-append : (p s t : Bytes) → contains p s ≡ true → contains p (s ++ t) ≡ true
contains-append p [] t h = contains_empty p t h
contains-append p (x ∷ s) t h =
    ground (arith, starts_with-append p (x ∷ s) t, contains-append p s t)

-- Each of the bytes is a separator.
abbrev pub Seps : Bytes → Type 0
Seps [] = Unit
Seps (x ∷ xs) = (is_in separators x ≡ true) × Seps xs

module _ (split : Bytes → Bytes → List Bytes) (splits : IsSplitting split) where
  pub split_three :
      (w a b : Bytes) (s₁ s₂ : ℕ)
      → IsWord separators w
      → IsWord separators a
      → IsWord separators b
      → Seps (s₁ ∷ s₂ ∷ [])
      → split separators (w ++ s₁ ∷ (a ++ s₂ ∷ b)) ≡ w ∷ a ∷ b ∷ []
  split_three w a b s₁ s₂ hw ha hb (h₁, (h₂, _)) =
      splits.split-separator separators w _ s₁ hw h₁
      ∙ ap (λ ws. w ∷ ws)
          (splits.split-separator separators a b s₂ ha h₂
            ∙ ap (λ ws. a ∷ ws) (splits.split-word separators b hb))

  pub split_four :
      (w a b c : Bytes) (s₁ s₂ s₃ : ℕ)
      → IsWord separators w
      → IsWord separators a
      → IsWord separators b
      → IsWord separators c
      → Seps (s₁ ∷ s₂ ∷ s₃ ∷ [])
      → split separators (w ++ s₁ ∷ (a ++ s₂ ∷ (b ++ s₃ ∷ c))) ≡ w ∷ a ∷ b ∷ c ∷ []
  split_four w a b c s₁ s₂ s₃ hw ha hb hc (h₁, seps) =
      splits.split-separator separators w _ s₁ hw h₁
      ∙ ap (λ ws. w ∷ ws) (split_three a b c s₂ s₃ ha hb hc seps)
