-- ===== src/Codex/Environment/Allowed.antt =====
-- Which variables of the host `isolatedEnvironment` of internal/codex/isolated.go lets through.
use peercontext.Common.{
  ◌≡◌, ◌≢◌, inl, inr, refl, ◌∙◌, not, Bool, true, false, ◌&&◌, ◌||◌, List, [], ◌∷◌, map, String,
  any, any-imply, any-false-All, All, arith, Bool-cases, ◌==◌, string_eq, ==_iff, ==_refl,
}
use peercontext.Common.Dict.{Dict, insert}
use peercontext.State.Profiles.{sort_by, insert_sorted}
use peercontext.State.Profiles.Sorted.{All-sort_by}
use peercontext.Codex.Environment.{
  entry, with_host_values, fixed_values, host_keys, isolated_environment,
}

any-insert_sorted :
    {A : Type 0} (key : A → String) (p : A → Bool) (a : A) (xs : List A)
    → any p (insert_sorted key a xs) ≡ (p a || any p xs)
unfolding insert_sorted any
any-insert_sorted key p a [] = refl
any-insert_sorted key p a (x ∷ xs) = ground (arith, any-insert_sorted key p a xs)

any-sort_by :
    {A : Type 0} (key : A → String) (p : A → Bool) (xs : List A) → any p (sort_by key xs) ≡ any p xs
unfolding sort_by any
any-sort_by key p [] = refl
any-sort_by key p (x ∷ xs) =
    ground (arith, any-insert_sorted key p x (sort_by key xs), any-sort_by key p xs)

All-insert :
    (P : String × String → Type 0) (key value : String) (d : Dict String String)
    → P (key, value)
    → All P d
    → All P (insert key value d)
unfolding insert
All-insert P key value [] new all = (new, tt)
All-insert P key value ((j, w) ∷ d) new all = elim (Bool-cases (j == key)) [
  | inl e ↦ rw (e, insert) (new, all.1)
  | inr e ↦ rw (e, insert) (all.0, All-insert P key value d new all.1)
]

-- A pair of a fixed variable, or of one that is let through, with its value on the host.
pub data IsAllowed (getenv : String → String) (keys : List String) (fixed : Dict String String)
    : String × String → Type 0 where
  own :
      (e : String × String)
      → any (λ f. f.0 == e.0 && f.1 == e.1) fixed ≡ true
      → IsAllowed getenv keys fixed e
  host :
      (key : String)
      → any (λ k. k == key) keys ≡ true
      → getenv key ≢ ""
      → IsAllowed getenv keys fixed (key, getenv key)

abbrev same : String × String → String × String → Bool
same e f = f.0 == e.0 && f.1 == e.1

-- Every element of a list is found in it.
All-same :
    (xs ys : Dict String String)
    → ((e : String × String) → any (same e) ys ≡ true → any (same e) xs ≡ true)
    → All (λ e. any (same e) xs ≡ true) ys
unfolding any
All-same xs [] h = tt
All-same xs (y ∷ ys) h =
    (h y (ground (arith, ==_refl y.0, ==_refl y.1)), All-same xs ys (λ e m. h e (ground arith)))

module _ (getenv : String → String) (fixed : Dict String String) where
  with_host_values-IsAllowed :
      (all keys : List String) (d : Dict String String)
      → All (λ k. any (λ j. j == k) all ≡ true) keys
      → All (IsAllowed getenv all fixed) d
      → All (IsAllowed getenv all fixed) (with_host_values getenv keys d)
  unfolding with_host_values
  with_host_values-IsAllowed all [] d within allowed = allowed
  with_host_values-IsAllowed all (k ∷ ks) d within allowed = elim (Bool-cases (getenv k == "")) [
    | inl e ↦ rw (with_host_values, e) (with_host_values-IsAllowed all ks d within.1 allowed)
    | inr e ↦
        rw (with_host_values, e)
          (with_host_values-IsAllowed all ks _ within.1 (
            All-insert (IsAllowed getenv all fixed) k (getenv k) d
              (host k within.0 (λ h. ground (arith, ==_iff (getenv k) ""))) allowed))
  ]

  any-insert_kept :
      (p : String × String → Bool) (key value : String) (d : Dict String String)
      → ((w : String) → p (key, w) ≡ false)
      → any p d ≡ true
      → any p (insert key value d) ≡ true
  unfolding insert any
  any-insert_kept p key value [] other h = absurd (ground arith)
  any-insert_kept p key value ((j, w) ∷ d) other h =
      ground (arith, other w, any-insert_kept p key value d other, ==_iff j key)

  with_host_values-kept :
      (p : String × String → Bool) (keys : List String) (d : Dict String String)
      → All (λ k. (w : String) → p (k, w) ≡ false) keys
      → any p d ≡ true
      → any p (with_host_values getenv keys d) ≡ true
  unfolding with_host_values
  with_host_values-kept p [] d others h = h
  with_host_values-kept p (k ∷ ks) d others h = elim (Bool-cases (getenv k == "")) [
    | inl e ↦ rw (with_host_values, e) (with_host_values-kept p ks d others.1 h)
    | inr e ↦
        rw (with_host_values, e)
          (with_host_values-kept p ks _ others.1 (any-insert_kept p k (getenv k) d others.0 h))
  ]

-- Each entry of the environment is a fixed variable, or one of the sixteen that are let through with
-- its value on the host; and every fixed variable is there with its own value.
pub record IsIsolated (getenv : String → String) (fixed : Dict String String)
    (environment : List String) : Type 0 where
  pub only :
      All
        (λ text. (e : String × String) × (text ≡ entry e) × IsAllowed getenv host_keys fixed e)
        environment
  pub fixed_kept : All (λ e. any (λ text. text == entry e) environment ≡ true) fixed

All-map :
    {A B : Type 0} (f : A → B) (P : B → Type 0) (xs : List A)
    → All (λ x. P (f x)) xs
    → All P (map f xs)
All-map f P [] all = tt
All-map f P (x ∷ xs) all = (all.0, All-map f P xs all.1)

All-imply :
    {A : Type 0} (P Q : A → Type 0) (xs : List A) → ((x : A) → P x → Q x) → All P xs → All Q xs
All-imply P Q [] imply all = tt
All-imply P Q (x ∷ xs) imply all = (imply x all.0, All-imply P Q xs imply all.1)

any-map :
    {A B : Type 0} (f : A → B) (p : B → Bool) (xs : List A)
    → any p (map f xs) ≡ any (λ x. p (f x)) xs
unfolding any
any-map f p [] = refl
any-map f p (x ∷ xs) = ground (arith, any-map f p xs)

-- No fixed variable is let through from the host.
disjoint :
    (home codex_home tmp : String)
    → any
        (λ k. any (λ (e : String × String). k == e.0) (fixed_values home codex_home tmp))
        host_keys
      ≡ false
unfolding any fixed_values
disjoint home codex_home tmp = refl

host_found : any (λ k. not (any (λ j. j == k) host_keys)) host_keys ≡ false
unfolding any
host_found = refl

host_within : All (λ k. any (λ j. j == k) host_keys ≡ true) host_keys
host_within =
    All-imply (λ k. not (any (λ j. j == k) host_keys) ≡ false)
      (λ k. any (λ j. j == k) host_keys ≡ true) host_keys (λ k h. ground arith)
      (any-false-All (λ k. not (any (λ j. j == k) host_keys)) host_keys host_found)

not_host :
    (e : String × String) (fixed : Dict String String) (k : String)
    → any (same e) fixed ≡ true
    → any (λ (f : String × String). k == f.0) fixed ≡ false
    → (w : String) → same e (k, w) ≡ false
not_host e fixed k here apart w = elim (Bool-cases (k == e.0)) [
  | inr n ↦ ground (arith, n, ==_iff k e.0)
  | inl y ↦
      let equal : k ≡ e.0 = ground (arith, y, ==_iff k e.0) in
      let found : any (λ (f : String × String). k == f.0) fixed ≡ true =
        any-imply (same e) (λ f. k == f.0) fixed
          (λ f m. ground (arith, equal, ==_iff f.0 e.0, ==_iff k f.0)) here in
      absurd (ground (arith, found))
]

same_entry : (e x : String × String) → same e x ≡ true → (entry x == entry e) ≡ true
unfolding entry
same_entry (k, v) (j, w) m =
    let keys : j ≡ k = ground (arith, ==_iff j k) in
    let values : w ≡ v = ground (arith, ==_iff w v) in rw (keys, values) (==_refl (entry (k, v)))

entry_kept :
    (getenv : String → String) (fixed : Dict String String) (e : String × String)
    → any (same e) fixed ≡ true
    → All (λ k. any (λ (f : String × String). k == f.0) fixed ≡ false) host_keys
    → any
        (λ text. text == entry e)
        (map entry (sort_by (λ x. x.0) (with_host_values getenv host_keys fixed)))
      ≡ true
entry_kept getenv fixed e here apart =
    let values = with_host_values getenv host_keys fixed in
    let kept : any (same e) values ≡ true =
      with_host_values-kept getenv fixed (same e) host_keys fixed
        (All-imply (λ k. any (λ (f : String × String). k == f.0) fixed ≡ false)
          (λ k. (w : String) → same e (k, w) ≡ false) host_keys (λ k h. not_host e fixed k here h)
          apart)
        here in
    any-map entry (λ text. text == entry e) (sort_by (λ x. x.0) values)
    ∙ any-imply (same e) (λ x. entry x == entry e) (sort_by (λ x. x.0) values)
        (λ x m. same_entry e x m) (any-sort_by (λ x. x.0) (same e) values ∙ kept)

-- Whatever the environment of the host, the one that Codex gets has only the nine fixed variables and
-- those of sixteen named variables that the host sets, and each fixed variable has the value that
-- the isolated run gives it.
pub isolated_environment-IsIsolated :
    (getenv : String → String) (home codex_home tmp : String)
    → IsIsolated getenv
        (fixed_values home codex_home tmp)
        (isolated_environment getenv home codex_home tmp)
unfolding isolated_environment
isolated_environment-IsIsolated getenv home codex_home tmp =
    let fixed = fixed_values home codex_home tmp in
    let values = with_host_values getenv host_keys fixed in
    let sorted = sort_by (λ (e : String × String). e.0) values in
    let mine = All-same fixed fixed (λ e h. h) in
    let allowed : All (IsAllowed getenv host_keys fixed) sorted =
      All-sort_by (λ e. e.0) (IsAllowed getenv host_keys fixed) values
        (with_host_values-IsAllowed getenv fixed host_keys host_keys fixed host_within (
          All-imply (λ e. any (same e) fixed ≡ true) (IsAllowed getenv host_keys fixed) fixed
            (λ e h. own e h) mine)) in
    record {
      only =
          All-map entry
            (λ text. (e : String × String) × (text ≡ entry e) × IsAllowed getenv host_keys fixed e)
            sorted
            (All-imply (IsAllowed getenv host_keys fixed)
              (λ x.
                (e : String × String) × (entry x ≡ entry e) × IsAllowed getenv host_keys fixed e)
              sorted (λ x h. (x, refl, h)) allowed);
      fixed_kept =
          All-imply (λ e. any (same e) fixed ≡ true)
            (λ e. any (λ text. text == entry e) (map entry sorted) ≡ true) fixed
            (λ e here. entry_kept getenv fixed e here (
              any-false-All (λ k. any (λ (f : String × String). k == f.0) fixed) host_keys
                (disjoint home codex_home tmp)))
            mine;
    }
