-- ===== src/State/Profiles/Sorted.antt =====
-- Lists that `sort.Slice` and `sort.Strings` have sorted, in internal/v2state/state.go and elsewhere.
use peercontext.Common.{Bool-cases, inl, inr, List, [], ◌∷◌, String, All}
use peercontext.State.Profiles.{sort_by, insert_sorted, text_lt}

All-insert_sorted :
    {A : Type 0} (key : A → String) (P : A → Type 0) (a : A) (xs : List A)
    → P a
    → All P xs
    → All P (insert_sorted key a xs)
unfolding insert_sorted
All-insert_sorted key P a [] pa all = (pa, tt)
All-insert_sorted key P a (x ∷ xs) pa all = elim (Bool-cases (text_lt (key x) (key a))) [
  | inl e ↦ rw (e, insert_sorted) (all.0, All-insert_sorted key P a xs pa all.1)
  | inr e ↦ rw (e, insert_sorted) (pa, all)
]

pub All-sort_by :
    {A : Type 0} (key : A → String) (P : A → Type 0) (xs : List A)
    → All P xs
    → All P (sort_by key xs)
unfolding sort_by
All-sort_by key P [] all = tt
All-sort_by key P (x ∷ xs) all =
    All-insert_sorted key P x (sort_by key xs) all.0 (All-sort_by key P xs all.1)
