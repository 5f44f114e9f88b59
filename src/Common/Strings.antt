-- ===== src/Common/Strings.antt =====
-- Go strings and byte slices as lists of bytes. Letters outside ASCII are left alone by `to_lower`
-- and count as no space: the model speaks of ASCII texts.
use Prim.Native.Nat.{ℕ, ◌+◌, ◌-◌, ◌*◌, ◌^◌}
use Prim.Native.Char.{code}
use Prim.Native.String.{String}
use mathlib.Core.Path.{◌≡◌, refl, ap, sym, ◌∙◌}
use mathlib.Core.Logic.{◌↔◌}
use mathlib.Core.Bool.{Bool, true, false, ◌&&◌, ◌||◌}
use mathlib.Core.Option.{Option, none, some}
use mathlib.Core.List.{List, [], ◌∷◌, ◌++◌, map, reverse}
use native.Mathlib.Omega.{arith}
use mathlib.Core.Logic.{inl, inr}
use ods.Common.Tests.{ltb, leb, ◌==◌, if◌then◌else◌, Bool-cases}
use ods.Common.Lists.{length, drop}

abbrev pub Text : Type 0
Text = List ℕ

-- The bytes of an ASCII literal.
abbrev pub codes : String → Text
codes String.[] = []
codes (String.◌∷◌ c s) = code c ∷ codes s

unfoldable pub text_eq : Text → Text → Bool
text_eq [] [] = true
text_eq [] (y ∷ ys) = false
text_eq (x ∷ xs) [] = false
text_eq (x ∷ xs) (y ∷ ys) = x == y && text_eq xs ys

pub text_eq_sound : (s t : Text) → text_eq s t ≡ true → s ≡ t
unfolding text_eq
text_eq_sound [] [] h = refl
text_eq_sound [] (y ∷ ys) h = cc
text_eq_sound (x ∷ xs) [] h = cc
text_eq_sound (x ∷ xs) (y ∷ ys) h = ground (arith, text_eq_sound xs ys)

pub text_eq_self : (s : Text) → text_eq s s ≡ true
unfolding text_eq
text_eq_self [] = refl
text_eq_self (x ∷ xs) = ground (arith, text_eq_self xs)

pub text_eq_comm-false : (s t : Text) → text_eq s t ≡ false → text_eq t s ≡ false
text_eq_comm-false s t h = elim (Bool-cases (text_eq t s)) [
  | inr other ↦ other
  | inl same ↦
      let e : text_eq s t ≡ true = ap (text_eq s) (text_eq_sound t s same) ∙ text_eq_self s in cc
]

pub text_eq_iff : (s t : Text) → (text_eq s t ≡ true) ↔ (s ≡ t)
text_eq_iff s t = (text_eq_sound s t, λ e. ap (text_eq s) (sym e) ∙ text_eq_self s)

-- len(s) == 0
abbrev pub is_empty : Text → Bool
is_empty [] = true
is_empty (x ∷ xs) = false

-- unicode.ToLower on a byte, for ASCII
unfoldable pub lower_byte : ℕ → ℕ
lower_byte c = if leb b'A' c && leb c b'Z' then c + 32 else c

-- strings.ToLower
unfoldable pub to_lower : Text → Text
unfolding lower_byte
to_lower s = map lower_byte s

-- strings.HasPrefix
unfoldable pub has_prefix : Text → Text → Bool
has_prefix s [] = true
has_prefix [] (p ∷ ps) = false
has_prefix (c ∷ s) (p ∷ ps) = c == p && has_prefix s ps

-- strings.Replace(s, old, new, -1) where `old` is one byte
unfoldable pub replace_byte : ℕ → Text → Text → Text
replace_byte old new [] = []
replace_byte old new (c ∷ s) =
    let rest = replace_byte old new s in if c == old then new ++ rest else c ∷ rest

-- strings.Replace(s, old, new, 1), for an `old` that is not empty
unfoldable pub replace_first : Text → Text → Text → Text
unfolding has_prefix
replace_first old new [] = []
replace_first old new (c ∷ s) =
    let rest = replace_first old new s in
    if has_prefix (c ∷ s) old then new ++ drop (length old) (c ∷ s) else c ∷ rest

-- The first piece takes the bytes that stand before the next separator.
abbrev pub push_first : ℕ → List Text → List Text
push_first c [] = (c ∷ []) ∷ []
push_first c (p ∷ ps) = (c ∷ p) ∷ ps

-- strings.Split(s, sep) for a separator of one byte
unfoldable pub split : ℕ → Text → List Text
split sep [] = [] ∷ []
split sep (c ∷ s) = let rest = split sep s in if c == sep then [] ∷ rest else push_first c rest

-- strings.Join(parts, sep)
unfoldable pub join : Text → List Text → Text
join sep [] = []
join sep (p ∷ []) = p
join sep (p ∷ q ∷ ps) = p ++ (sep ++ join sep (q ∷ ps))

is_space : ℕ → Bool
is_space c = (leb 9 c && leb c 13) || c == 32

trim_left : Text → Text
trim_left [] = []
trim_left (c ∷ s) = let rest = trim_left s in if is_space c then rest else c ∷ s

-- strings.TrimSpace
unfoldable pub trim_space : Text → Text
unfolding is_space trim_left
trim_space s = reverse (trim_left (reverse (trim_left s)))

is_digit : ℕ → Bool
is_digit c = if leb 48 c then leb c 57 else false

digits : ℕ → Text → Option ℕ
digits n [] = some n
digits n (c ∷ s) = let rest = digits (n * 10 + (c - 48)) s in if is_digit c then rest else none

-- strconv.ParseInt(s, 10, 64), where it returns a number that is not negative. A '+' in front is
-- accepted; `none` stands for an error, and for a negative number.
unfoldable pub parse_int : Text → Option ℕ
unfolding digits is_digit
parse_int [] = none
parse_int (c ∷ s) =
    let text = if c == b'+' then s else c ∷ s in
    if is_empty text
    then none
    else elim (digits 0 text) [ none ↦ none | some n ↦ if ltb n (2 ^ 63) then some n else none ]
