-- ===== src/Examples/Toy.antt =====
-- A platform that computes: texts in tally marks, and signatures that hold the key and the message.
use Prim.Native.Char.{code}
use peercontext.Common.{
  ℕ, zero, suc, ◌+◌, ◌-◌, ◌≡◌, refl, ap, ◌∙◌, true, Option, none, some, [], ◌∷◌, ◌++◌, String,
  arith, ◌==◌, nat_eq, bytes_eq, ==_refl, if◌then◌else◌,
}
use peercontext.Common.Text.{Bytes}
use peercontext.Protocol.Platform.{Platform}

-- a number as tally marks, before a text
unfoldable pub marks : ℕ → String → String
marks zero s = s
marks (suc n) s = String.◌∷◌ "1" (marks n s)

unfoldable pub tally : ℕ → String
unfolding marks
tally n = marks n ""

unfoldable pub tallies : Bytes → String
unfolding marks
tallies [] = ""
tallies (n ∷ ns) = marks n (String.◌∷◌ "0" (tallies ns))

abbrev prepend : ℕ → Option Bytes → Option Bytes
prepend n none = none
prepend n (some ns) = some (n ∷ ns)

unfoldable pub read_tallies : ℕ → String → Option Bytes
read_tallies n String.[] = if n == 0 then some [] else none
read_tallies n (String.◌∷◌ c s) =
    let rest = read_tallies 0 s in
    let more = read_tallies (suc n) s in
    if code c == b'0' then prepend n rest else if code c == b'1' then more else none

unfoldable pub count_marks : String → ℕ
count_marks String.[] = 0
count_marks (String.◌∷◌ c s) = suc (count_marks s)

unfoldable pub first_32 : ℕ → Bytes → Bytes
first_32 n [] = []
first_32 n (b ∷ bs) = let rest = first_32 (n - 1) bs in if n == 0 then [] else b ∷ rest

abbrev pub toy : Platform
toy = record {
  sha256 = λ b. b;
  sign = λ key data_. first_32 32 key ++ data_;
  verify = λ key data_ signature. signature == key ++ data_;
  public_key = first_32 32;
  hex = tallies;
  base64 = tallies;
  base64_decode = read_tallies 0;
  base64_prefix = λ _. [];
  format_time = tally;
  parse_time = λ s. some (count_marks s);
}

read_tally :
    (n m : ℕ) (ns : Bytes) (s : String)
    → read_tallies 0 s ≡ some ns
    → read_tallies m (marks n (String.◌∷◌ "0" s)) ≡ some ((n + m) ∷ ns)
unfolding read_tallies marks
read_tally zero m ns s h = ap (prepend m) h ∙ ap (λ k. some (k ∷ ns)) (omega arith)
read_tally (suc n) m ns s h = read_tally n (suc m) ns s h ∙ ap (λ k. some (k ∷ ns)) (omega arith)

-- The toy platform reads back what it encodes.
pub toy-reads : (b : Bytes) → toy.base64_decode (toy.base64 b) ≡ some b
unfolding tallies read_tallies
toy-reads [] = refl
toy-reads (n ∷ ns) =
    read_tally n 0 ns (tallies ns) (toy-reads ns) ∙ ap (λ k. some (k ∷ ns)) (omega arith)

-- Its signatures verify.
pub toy-signs :
    (key data_ : Bytes) → toy.verify (toy.public_key key) data_ (toy.sign key data_) ≡ true
toy-signs key data_ = ==_refl (first_32 32 key ++ data_)

unfoldable pub zeros : ℕ → Bytes
zeros zero = []
zeros (suc n) = 0 ∷ zeros n
