-- ===== src/Prelude/Relations.antt =====
-- Rows of steps.
use mathlib.Core.Path.{◌≡◌, refl, ◌∙◌}

module _ {H : Type 0} where
  pub data Star (R : H → H → Type 0) : H → H → Type 0 where
    stay : {h : H} → Star R h h
    more : {a b c : H} → R a b → Star R b c → Star R a c

  -- A row of steps with at most one of another kind among them.
  pub data AtMostOnce (Other R : H → H → Type 0) : H → H → Type 0 where
    never : {a b : H} → Star R a b → AtMostOnce Other R a b
    once : {a b c d : H} → Star R a b → Other b c → Star R c d → AtMostOnce Other R a d

  -- What no step changes.
  pub Star-keeps :
      {A : Type 0} {R : H → H → Type 0} (f : H → A)
      → ((a b : H) → R a b → f b ≡ f a)
      → {a b : H} → Star R a b
      → f b ≡ f a
  Star-keeps f keeps stay = refl
  Star-keeps f keeps (more step rest) = Star-keeps f keeps rest ∙ keeps _ _ step

  pub AtMostOnce-keeps :
      {A : Type 0} {Other R : H → H → Type 0} (f : H → A)
      → ((a b : H) → Other a b → f b ≡ f a)
      → ((a b : H) → R a b → f b ≡ f a)
      → {a b : H} → AtMostOnce Other R a b
      → f b ≡ f a
  AtMostOnce-keeps f other keeps (never steps) = Star-keeps f keeps steps
  AtMostOnce-keeps f other keeps (once before step later) =
      Star-keeps f keeps later ∙ (other _ _ step ∙ Star-keeps f keeps before)
