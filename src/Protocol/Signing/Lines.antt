-- ===== src/Protocol/Signing/Lines.antt =====
-- The layout of `fmt.Sprintf("…\n%s\n%s…")`: texts set one to a line.
use Prim.Native.String.{String}
use text.Mathlib.TextEquality.{Char-path}
use peercontext.Common.{ℕ, ◌≡◌, ◌≢◌, refl, sym, ap, List, [], ◌∷◌, ◌++◌, All, arith}
use peercontext.Common.Text.{Bytes, codes}

abbrev newline : ℕ
newline = 10

unfoldable pub lines : List Bytes → Bytes
lines [] = []
lines (x ∷ []) = x
lines (x ∷ (y ∷ r)) = x ++ newline ∷ lines (y ∷ r)

-- No byte of the text ends a line.
abbrev pub IsLine : Bytes → Type 0
IsLine = All (λ c. c ≢ newline)

-- What stands before the first newline is determined.
split_at_newline :
    (x y r s : Bytes)
    → IsLine x
    → IsLine y
    → x ++ newline ∷ r ≡ y ++ newline ∷ s
    → (x ≡ y) × (r ≡ s)
split_at_newline [] [] r s hx hy e = ground arith
split_at_newline [] (b ∷ y) r s hx hy e = ground arith
split_at_newline (a ∷ x) [] r s hx hy e = ground arith
split_at_newline (a ∷ x) (b ∷ y) r s hx hy e = ground (arith, split_at_newline x y r s hx.1 hy.1)

line-ne-more : (x y s : Bytes) → IsLine x → x ≢ y ++ newline ∷ s
line-ne-more [] [] s hx e = ground arith
line-ne-more [] (b ∷ y) s hx e = ground arith
line-ne-more (a ∷ x) [] s hx e = ground arith
line-ne-more (a ∷ x) (b ∷ y) s hx e = ground (arith, line-ne-more x y s hx.1)

-- Texts without newlines are read back from their lines.
pub lines_inj :
    (xs ys : List Bytes)
    → All IsLine xs
    → All IsLine ys
    → xs ≢ []
    → ys ≢ []
    → lines xs ≡ lines ys
    → xs ≡ ys
unfolding lines
lines_inj [] ys hx hy nx ny e = absurd (nx refl)
lines_inj (x ∷ r) [] hx hy nx ny e = absurd (ny refl)
lines_inj (x ∷ []) (y ∷ []) hx hy nx ny e = ap (λ z. z ∷ []) e
lines_inj (x ∷ []) (y ∷ (v ∷ s)) hx hy nx ny e = absurd (line-ne-more x y _ hx.0 e)
lines_inj (x ∷ (u ∷ r)) (y ∷ []) hx hy nx ny e = absurd (line-ne-more y x _ hy.0 (sym e))
lines_inj (x ∷ (u ∷ r)) (y ∷ (v ∷ s)) hx hy nx ny e =
    let (p, q) = split_at_newline x y _ _ hx.0 hy.0 e in
    ground (arith, lines_inj (u ∷ r) (v ∷ s) hx.1 hy.1 (λ h. cc) (λ h. cc) q)

pub codes_inj : (s t : String) → codes s ≡ codes t → s ≡ t
unfolding codes
codes_inj String.[] String.[] e = refl
codes_inj String.[] (String.◌∷◌ c t) e = ground arith
codes_inj (String.◌∷◌ c s) String.[] e = ground arith
codes_inj (String.◌∷◌ c s) (String.◌∷◌ d t) e =
    cc (Char-path c d (ground arith), codes_inj s t (ground arith))
