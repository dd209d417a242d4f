-- ===== src/Pipeline/Yields.antt =====
-- What a run of app/pipeline/tasks.py yields where it returns: rules for the sequence of steps.
use tsg.Base.{◌≡◌, subst, Bool, true, false, if◌then◌else◌, arith}
use tsg.Failure.{Attempt, returns, raises}
use tsg.World.{World}
use tsg.Pipeline.Run.{Run, pure, read, carry_on, ◌>>=◌}

abbrev pub Returned : {A : Type 0} → (A → World → Type 0) → Attempt A × World → Type 0
Returned H (returns a, w) = H a w
Returned H (raises e, w) = Unit

-- From a world with `G`, the run raises or returns a value and a world with `H`.
pub record Yields (G : World → Type 0) {A : Type 0} (m : Run A) (H : A → World → Type 0)
    : Type 0 where
  pub at : (w : World) → G w → Returned H (m w)

infixl 5 ◌then_yields◌
pub ◌then_yields◌ :
    {A B : Type 0} {G : World → Type 0} {H : A → World → Type 0} {L : B → World → Type 0}
    {m : Run A} {f : A → Run B}
    → Yields G m H
    → ((a : A) → Yields (H a) (f a) L)
    → Yields G (m >>= f) L
◌then_yields◌ {A} {B} {G} {H} {L} {m} {f} km kf = record { at = λ w g. go (m w) (km.at w g) }
  where
    go : (r : Attempt A × World) → Returned H r → Returned L (carry_on f r)
    go (returns a, w') h = (kf a).at w' h
    go (raises e, w') h = tt

pub Yields-pure :
    {A : Type 0} {G : World → Type 0} {H : A → World → Type 0} (a : A)
    → ((w : World) → G w → H a w)
    → Yields G (pure a) H
Yields-pure a h = record { at = h }

pub Yields-read : {A : Type 0} {G : World → Type 0} (f : World → A) → Yields G (read f) (λ _. G)
Yields-read f = record { at = λ w g. g }

pub Yields-if :
    {A : Type 0} {G : World → Type 0} {H : A → World → Type 0} (b : Bool) {m n : Run A}
    → Yields G m H
    → Yields G n H
    → Yields G (if b then m else n) H
Yields-if true ym yn = ym
Yields-if false ym yn = yn

-- What `Yields` says of a run that returned `a`.
pub Yields-returns :
    {A : Type 0} {G : World → Type 0} {H : A → World → Type 0} {m : Run A} (a : A) (w : World)
    → Yields G m H
    → G w
    → (m w).0 ≡ returns a
    → H a (m w).1
Yields-returns {A} {G} {H} {m} a w y g e = go (m w) e (y.at w g)
  where
    go : (r : Attempt A × World) → r.0 ≡ returns a → Returned H r → H a r.1
    go (returns b, w') e' h = let same : b ≡ a = cc in subst (λ c. H c w') same h
    go (raises _, w') e' h = absurd (ground (arith, e'))

pub Yields-mono :
    {A : Type 0} {G : World → Type 0} {H L : A → World → Type 0} {m : Run A}
    → ((a : A) (w : World) → H a w → L a w)
    → Yields G m H
    → Yields G m L
Yields-mono {A} {G} {H} {L} {m} f y = record { at = λ w g. go (m w) (y.at w g) }
  where
    go : (r : Attempt A × World) → Returned H r → Returned L r
    go (returns a, w') h = f a w' h
    go (raises e, w') h = tt

-- A fact that does not depend on the world.
pub Yields-given :
    {A : Type 0} {P : Type 0} {H : A → World → Type 0} {m : Run A}
    → (P → Yields (λ w. Unit {0}) m H)
    → Yields (λ w. P) m H
Yields-given y = record { at = λ w p. (y p).at w tt }

-- A stage that won its claim and returned `a`.
pub Yields-won :
    {A : Type 0} {G : World → Type 0} {H : A → World → Type 0} (claimed : Run Bool) (m lost : Run A)
    (a : A) (w : World)
    → Yields G m H
    → G (claimed w).1
    → (claimed w).0 ≡ returns true
    → ((claimed >>= λ won. if won then m else lost) w).0 ≡ returns a
    → H a ((claimed >>= λ won. if won then m else lost) w).1
Yields-won {A} {G} {H} claimed m lost a w y = go (claimed w)
  where
    go :
        (r : Attempt Bool × World)
        → G r.1
        → r.0 ≡ returns true
        → (carry_on (λ won. if won then m else lost) r).0 ≡ returns a
        → H a (carry_on (λ won. if won then m else lost) r).1
    go (returns true, w') g h e = Yields-returns a w' y g e
    go (returns false, w') g h e = absurd (ground (arith, h))
    go (raises _, w') g h e = absurd (ground (arith, h))
