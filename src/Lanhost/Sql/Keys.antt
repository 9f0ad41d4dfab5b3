-- ===== src/Lanhost/Sql/Keys.antt =====
-- The statements of SQL and the uniqueness of keys.
use peercontext.Common.{
  ◌≡◌, refl, ◌∙◌, Bool, false, List, [], ◌∷◌, ◌++◌, any, arith, subst, inl, inr, Bool-cases,
}
use peercontext.Common.Unique.{Unique, Unique-append, any_congr}
use peercontext.Errors.{ok}
use peercontext.Lanhost.Sql.{insert_row, update_where}

module _ {R : Type 0} (same : R → R → Bool) (symmetric : (x y : R) → same x y ≡ same y x) where
  -- An insert whose test sees every row of the same key keeps keys unique.
  pub insert_row-Unique :
      (conflicts : R → Bool) (row : R) (rows rows' : List R)
      → Unique same rows
      → (any conflicts rows ≡ false → any (same row) rows ≡ false)
      → insert_row conflicts row rows ≡ ok rows'
      → Unique same rows'
  unfolding insert_row
  insert_row-Unique conflicts row rows rows' u sees h = elim (Bool-cases (any conflicts rows)) [
    | inl hit ↦ absurd (ground (arith, hit))
    | inr clear ↦
        let appended : rows ++ row ∷ [] ≡ rows' = ground (arith, clear) in
        subst (Unique same) appended (Unique-append same symmetric rows row u (sees clear))
  ]

module _ {R : Type 0} (same : R → R → Bool) (p : R → Bool) (f : R → R) where
  any-update_where :
      (q : R → Bool) (rows : List R)
      → ((r : R) → q (f r) ≡ q r)
      → any q (update_where p f rows) ≡ any q rows
  unfolding any update_where
  any-update_where q [] k = refl
  any-update_where q (r ∷ rs) k = ground (arith, any-update_where q rs k, k r)

  -- An update that keeps the key keeps keys unique.
  pub update_where-Unique :
      (rows : List R)
      → ((r s : R) → same (f r) s ≡ same r s)
      → ((r s : R) → same r (f s) ≡ same r s)
      → Unique same rows
      → Unique same (update_where p f rows)
  unfolding update_where
  update_where-Unique [] left right u = tt
  update_where-Unique (r ∷ rs) left right u =
      let rest = update_where-Unique rs left right u.1 in
      elim (Bool-cases (p r)) [
        | inl hit ↦ rw hit (
          any-update_where (same (f r)) rs (λ s. right (f r) s)
              ∙ any_congr (same (f r)) (same r) rs (left r)
              ∙ u.0,
          rest,
        )
        | inr miss ↦ rw miss (any-update_where (same r) rs (λ s. right r s) ∙ u.0, rest)
      ]
