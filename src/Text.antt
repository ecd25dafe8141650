-- ===== src/Text.antt =====
-- Texts as lists of code points, and what the services use of Go's package strings.
-- Every test here is against ASCII characters or white space, so a byte of an invalid encoding,
-- which Go would read as U+FFFD, fails and passes the same tests as that code point.
use Prim.Native.Char.{code}
use Prim.Native.String.{String}
use tradesphere.Base.{
  length, suc, Option, none, some, take, ap, ℕ, ◌≡◌, refl, Bool, true, false, ◌&&◌, ◌||◌, List, [],
  ◌∷◌, ◌++◌, leb, ◌==◌, ◌≢◌, if◌then◌else◌, All, arith,
}

abbrev pub Text : Type 0
Text = List ℕ

-- The code points of a literal.
abbrev pub codes : String → Text
codes String.[] = []
codes (String.◌∷◌ c s) = code c ∷ codes s

abbrev pub is_empty : Text → Bool
is_empty [] = true
is_empty (c ∷ s) = false

-- `unicode.IsSpace`
unfoldable pub is_space : ℕ → Bool
is_space c =
    (leb 9 c && leb c 13)
    || c == 32
    || c == 0x85
    || c == 0xa0
    || c == 0x1680
    || (leb 0x2000 c && leb c 0x200a)
    || c == 0x2028
    || c == 0x2029
    || c == 0x202f
    || c == 0x205f
    || c == 0x3000

unfoldable pub trim_left : Text → Text
trim_left [] = []
trim_left (c ∷ s) = if is_space c then trim_left s else c ∷ s

unfoldable pub trim_right : Text → Text
trim_right [] = []
trim_right (c ∷ s) = let rest = trim_right s in if is_space c && is_empty rest then [] else c ∷ rest

-- `strings.TrimSpace`
unfoldable pub trim_space : Text → Text
unfolding trim_left trim_right is_space
trim_space s = trim_left (trim_right s)

abbrev pub cons_head : ℕ → List Text → List Text
cons_head c [] = (c ∷ []) ∷ []
cons_head c (p ∷ ps) = (c ∷ p) ∷ ps

-- `strings.Split` at a separator of one character
unfoldable pub split : ℕ → Text → List Text
split sep [] = [] ∷ []
split sep (c ∷ s) = let rest = split sep s in if c == sep then [] ∷ rest else cons_head c rest

abbrev pub text_eq : Text → Text → Bool
text_eq [] [] = true
text_eq [] (d ∷ t) = false
text_eq (c ∷ s) [] = false
text_eq (c ∷ s) (d ∷ t) = c == d && text_eq s t

-- The text `whole` without the prefix, as far as its end `s` has been compared
abbrev drop_prefix : Text → Text → Text → Text
drop_prefix whole [] t = t
drop_prefix whole (c ∷ p) [] = whole
drop_prefix whole (c ∷ p) (d ∷ t) =
    let rest = drop_prefix whole p t in if c == d then rest else whole

-- strings.TrimPrefix
abbrev pub trim_prefix : Text → Text → Text
trim_prefix p s = drop_prefix s p s

-- strings.HasPrefix
abbrev pub has_prefix : Text → Text → Bool
has_prefix [] s = true
has_prefix (c ∷ p) [] = false
has_prefix (c ∷ p) (d ∷ s) = c == d && has_prefix p s

-- strings.LastIndex of one character
abbrev pub last_index : ℕ → Text → Option ℕ
last_index c [] = none
last_index c (d ∷ s) = elim (last_index c s) [
  | some i ↦ some (suc i)
  | none ↦ if d == c then some 0 else none
]

pub text_eq→eq : (s t : Text) → text_eq s t ≡ true → s ≡ t
text_eq→eq [] [] h = refl
text_eq→eq [] (d ∷ t) h = cc
text_eq→eq (c ∷ s) [] h = cc
text_eq→eq (c ∷ s) (d ∷ t) h = ground (arith, text_eq→eq s t)

pub text_eq_refl : (s : Text) → text_eq s s ≡ true
text_eq_refl [] = refl
text_eq_refl (c ∷ s) = ground (arith, text_eq_refl s)

-- A text with no white space is its own trimmed form.
abbrev pub IsSolid : ℕ → Type 0
IsSolid c = is_space c ≡ false

trim_left_solid : (s : Text) → All IsSolid s → trim_left s ≡ s
unfolding trim_left
trim_left_solid [] h = refl
trim_left_solid (c ∷ s) (hc, hs) = rw hc

trim_right_solid : (s : Text) → All IsSolid s → trim_right s ≡ s
unfolding trim_right
trim_right_solid [] h = refl
trim_right_solid (c ∷ s) (hc, hs) = rw (hc, trim_right_solid s hs)

pub trim_space_solid : (s : Text) → All IsSolid s → trim_space s ≡ s
unfolding trim_space
trim_space_solid s h = rw (trim_right_solid s h) (trim_left_solid s h)

module _ (sep : ℕ) where
  abbrev pub Lacks : Text → Type 0
  Lacks = All (λ c. c ≢ sep)

  pub split-Lacks : (s : Text) → Lacks s → split sep s ≡ s ∷ []
  unfolding split
  split-Lacks [] h = refl
  split-Lacks (c ∷ s) (hc, hs) = rw (split-Lacks s hs) (ground arith)

  pub split-append : (s t : Text) → Lacks s → Lacks t → split sep (s ++ sep ∷ t) ≡ s ∷ t ∷ []
  unfolding split
  split-append [] t hs ht = rw (split-Lacks t ht) (ground arith)
  split-append (c ∷ s) t (hc, hs) ht = rw (split-append s t hs ht) (ground arith)

last_index-Lacks : (sep : ℕ) (s : Text) → Lacks sep s → last_index sep s ≡ none
last_index-Lacks sep [] h = refl
last_index-Lacks sep (c ∷ s) (hc, hs) = rw (last_index-Lacks sep s hs) (ground arith)

pub last_index-append :
    (sep : ℕ) (s t : Text) → Lacks sep t → last_index sep (s ++ sep ∷ t) ≡ some (length s)
last_index-append sep [] t h = rw (last_index-Lacks sep t h) (ground arith)
last_index-append sep (c ∷ s) t h = rw (last_index-append sep s t h)

pub take_front : (s t : Text) → take (length s) (s ++ t) ≡ s
take_front [] t = refl
take_front (c ∷ s) t = ap (λ r. c ∷ r) (take_front s t)

drop_prefix_lem : (whole p s : Text) → has_prefix p s ≡ true → s ≡ p ++ drop_prefix whole p s
drop_prefix_lem whole [] s h = refl
drop_prefix_lem whole (c ∷ p) [] h = cc
drop_prefix_lem whole (c ∷ p) (d ∷ s) h = ground (arith, drop_prefix_lem whole p s)

-- A text with a prefix is the prefix and the rest.
pub trim_prefix_lem : (p s : Text) → has_prefix p s ≡ true → s ≡ p ++ trim_prefix p s
trim_prefix_lem p s h = drop_prefix_lem s p s h
