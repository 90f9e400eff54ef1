-- ===== src/Config/Loader/Outcomes.antt =====
-- The outcomes of the steps of `load_config` in src/ai_ha/config/loader.py.
use ai_home_assistant.Prelude.{Option, none, some, ◌⊎◌, ◌≡◌, refl, inl, inr}
use ai_home_assistant.Config.Loader.{LoadError, Loaded, loaded, refused, and_then, or_refused}

module _ {A : Type 0} where
  pub Loaded-cases :
      (r : Loaded A) → ((a : A) × (r ≡ loaded a)) ⊎ ((x : LoadError) × (r ≡ refused x))
  Loaded-cases (loaded a) = inl (a, refl)
  Loaded-cases (refused x) = inr (x, refl)

pub or_refused-loaded :
    {A : Type 0} (x : LoadError) (o : Option A) (a : A) → or_refused x o ≡ loaded a → o ≡ some a
or_refused-loaded x none a h = cc
or_refused-loaded x (some b) a h = cc

-- Inversion of a sequence that gave a value.
pub and_then-loaded :
    {A B : Type 0} (r : Loaded A) (k : A → Loaded B) {b : B}
    → and_then r k ≡ loaded b
    → (a : A) × (r ≡ loaded a) × (k a ≡ loaded b)
and_then-loaded (loaded a) k h = (a, refl, h)
and_then-loaded (refused x) k h = cc

pub and_then_assoc :
    {A B C : Type 0} (r : Loaded A) (k : A → Loaded B) (l : B → Loaded C)
    → and_then (and_then r k) l ≡ and_then r (λ a. and_then (k a) l)
and_then_assoc (loaded a) k l = refl
and_then_assoc (refused x) k l = refl
