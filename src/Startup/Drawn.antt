-- ===== src/Startup/Drawn.antt =====
-- The ids of scoped threats, which app/pipeline/tasks.py draws before a scenario names them.
use tsg.Base.{
  ℕ, suc, ◌≡◌, ◌≤◌, ◌<◌, refl, ◌∙◌, Bool, not, ◌&&◌, List, [], ◌∷◌, arith, ◌==◌, nat_eq, pair_eq,
  All, All-mono, count_where, update_where, inl, inr, Bool-cases,
}
use tsg.Models.{Db, OutputRow}
use tsg.Dal.Outputs.{output_generation, scoped_generation}
use tsg.World.{World}
use tsg.Pipeline.Run.{Services}
use tsg.Startup.{profile_columns, output_columns}
use tsg.Startup.Active.{UniqueActive}

module _ (sv : Services) where
  -- The id was drawn among the first `n`.
  abbrev pub Drawn : ℕ → ℕ → Type 0
  Drawn n id = (i : ℕ) × (i < n) × (sv.uuid4 i ≡ id)

  abbrev pub Kept : ℕ → Db → Type 0
  Kept n db =
      UniqueActive profile_columns (λ r. r.superseded) db.profiles
      × UniqueActive output_columns (λ r. r.superseded) db.outputs
      × All (λ r. Drawn n r.scoped_threat_id) db.outputs

  abbrev pub Holds : World → Type 0
  Holds w = Kept w.drawn w.db

  -- A scoped threat that has no scenario yet.
  abbrev pub Fresh : ℕ → World → Type 0
  Fresh id w =
      Holds w × Drawn w.drawn id × (count_where (λ r. r.scoped_threat_id == id) w.db.outputs ≡ 0)

  pub later : (n id : ℕ) → Drawn n id → Drawn (suc n) id
  later n id d = (d.0, omega (arith, d.1), d.2)

  pub more :
      (n : ℕ) (rows : List OutputRow)
      → All (λ r. Drawn n r.scoped_threat_id) rows
      → All (λ r. Drawn (suc n) r.scoped_threat_id) rows
  more n =
      All-mono (λ r. Drawn n r.scoped_threat_id) (λ r. Drawn (suc n) r.scoped_threat_id)
        (λ r. later n r.scoped_threat_id)

  module _ (inj : (i j : ℕ) → sv.uuid4 i ≡ sv.uuid4 j → i ≡ j) where
    pub undrawn :
        (n : ℕ) (rows : List OutputRow)
        → All (λ r. Drawn n r.scoped_threat_id) rows
        → count_where (λ r. r.scoped_threat_id == sv.uuid4 n) rows ≡ 0
    undrawn n [] h = refl
    undrawn n (r ∷ rows) h = elim (Bool-cases (r.scoped_threat_id == sv.uuid4 n)) [
      | inr other ↦ ground (arith, other, undrawn n rows h.1)
      | inl same ↦
          let (i, below, e) = h.0 in
          let clash : i ≡ n =
            inj i n (e ∙ (nat_eq.eqb_iff r.scoped_threat_id (sv.uuid4 n)).0 same) in
          absurd (omega (arith, below, clash))
    ]

  -- Rows that are retired leave every group smaller.
  pub retired_groups :
      (p : OutputRow → Bool) (k : ℕ × ℕ) (rows : List OutputRow)
      → count_where
          (λ r. not r.superseded && output_columns r == k)
          (update_where p output_generation.retire rows)
        ≤ count_where (λ r. not r.superseded && output_columns r == k) rows
  retired_groups p k [] = omega arith
  retired_groups p k (r ∷ rows) = ground (arith, retired_groups p k rows)

  pub retired_drawn :
      (p : OutputRow → Bool) (n : ℕ) (rows : List OutputRow)
      → All (λ r. Drawn n r.scoped_threat_id) rows
      → All (λ r. Drawn n r.scoped_threat_id) (update_where p output_generation.retire rows)
  retired_drawn p n [] h = tt
  retired_drawn p n (r ∷ rows) h = elim (Bool-cases (p r)) [
    | inl e ↦ rw e (h.0, retired_drawn p n rows h.1)
    | inr e ↦ rw e (h.0, retired_drawn p n rows h.1)
  ]
