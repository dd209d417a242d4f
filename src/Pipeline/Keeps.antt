-- ===== src/Pipeline/Keeps.antt =====
-- What a run of app/pipeline/tasks.py keeps of the world, whether it returns or raises: rules for the
-- sequence of steps.
use tsg.Base.{Bool, true, false, if◌then◌else◌}
use tsg.Failure.{Attempt, returns, raises}
use tsg.World.{World}
use tsg.Pipeline.Run.{Run, pure, read, carry_on, ◌>>=◌}

-- A run that ends in a world with the property where it starts in one.
pub record Keeps (G : World → Type 0) {A : Type 0} (m : Run A) : Type 0 where
  pub at : (w : World) → G w → G (m w).1

module _ {G : World → Type 0} where
  infixl 5 ◌then_keeps◌
  pub ◌then_keeps◌ :
      {A B : Type 0} {m : Run A} {f : A → Run B}
      → Keeps G m
      → ((a : A) → Keeps G (f a))
      → Keeps G (m >>= f)
  ◌then_keeps◌ {A} {B} {m} {f} km kf = record { at = λ w g. go (m w) (km.at w g) }
    where
      go : (r : Attempt A × World) → G r.1 → G (carry_on f r).1
      go (returns a, w') g' = (kf a).at w' g'
      go (raises e, w') g' = g'

  pub Keeps-if :
      {A : Type 0} (b : Bool) {m n : Run A} → Keeps G m → Keeps G n → Keeps G (if b then m else n)
  Keeps-if true km kn = km
  Keeps-if false km kn = kn

  pub Keeps-pure : {A : Type 0} (a : A) → Keeps G (pure a)
  Keeps-pure a = record { at = λ w g. g }

  pub Keeps-read : {A : Type 0} (f : World → A) → Keeps G (read f)
  Keeps-read f = record { at = λ w g. g }
