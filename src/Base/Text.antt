-- ===== src/Base/Text.antt =====
-- Go strings as lists of bytes, and the functions of `strings` and `strconv` that the driver calls.
use Prim.Native.Nat.{ℕ, ◌+◌, ◌-◌, ◌*◌, ◌/◌, ◌%◌}
use Prim.Native.Char.{code}
use Prim.Native.String.{String}
use mathlib.Core.Path.{◌≡◌, refl}
use mathlib.Core.Logic.{◌≢◌, ◌↔◌}
use mathlib.Core.Bool.{Bool, true, false, ◌&&◌, ◌||◌}
use mathlib.Core.Option.{Option, none, some}
use mathlib.Core.List.{List, [], ◌∷◌, ◌++◌}
use native.Mathlib.Omega.{arith}
use nifcloud_nas_csi_driver.Base.Tests.{leb, ltb, ◌==◌, if◌then◌else◌}
use nifcloud_nas_csi_driver.Base.Lists.{All, In}

abbrev pub Str : Type 0
Str = List ℕ

-- The bytes of an ASCII literal.
abbrev pub codes : String → Str
codes String.[] = []
codes (String.◌∷◌ c s) = code c ∷ codes s

abbrev pub is_empty : Str → Bool
is_empty [] = true
is_empty (c ∷ s) = false

-- The empty text where a map has no such key.
abbrev pub or_empty : Option Str → Str
or_empty none = []
or_empty (some s) = s

unfoldable pub str_eq : Str → Str → Bool
str_eq [] [] = true
str_eq (a ∷ s) (b ∷ t) = a == b && str_eq s t
str_eq _ _ = false

pub str_eq_iff : (s t : Str) → (str_eq s t ≡ true) ↔ (s ≡ t)
unfolding str_eq
str_eq_iff [] [] = ground arith
str_eq_iff [] (b ∷ t) = ground arith
str_eq_iff (a ∷ s) [] = ground arith
str_eq_iff (a ∷ s) (b ∷ t) = ground (arith, str_eq_iff s t)

pub str_eq_refl : (s : Str) → str_eq s s ≡ true
str_eq_refl s = (str_eq_iff s s).1 refl

-- Whether a string is a member.
unfoldable pub mem? : Str → List Str → Bool
mem? s [] = false
mem? s (t ∷ ts) = str_eq s t || mem? s ts

pub mem?-In : (s : Str) (ts : List Str) → mem? s ts ≡ true → In s ts
unfolding mem?
mem?-In s [] h = cc
mem?-In s (t ∷ ts) h = ground (arith, str_eq_iff s t, mem?-In s ts)

pub In-mem? : (s : Str) (ts : List Str) → In s ts → mem? s ts ≡ true
unfolding mem?
In-mem? s [] h = absurd h
In-mem? s (t ∷ ts) h = ground (arith, str_eq_iff s t, In-mem? s ts)

-- strings.Split(s, sep) for a separator of one byte.
abbrev pub onto_first : ℕ → List Str → List Str
onto_first c [] = (c ∷ []) ∷ []
onto_first c (p ∷ ps) = (c ∷ p) ∷ ps

unfoldable pub split : ℕ → Str → List Str
split sep [] = [] ∷ []
split sep (c ∷ s) = let rest = split sep s in if c == sep then [] ∷ rest else onto_first c rest

abbrev pub Lacks : ℕ → Str → Type 0
Lacks b = All (λ c. c ≢ b)

pub split-lacking : (sep : ℕ) (p : Str) → Lacks sep p → split sep p ≡ p ∷ []
unfolding split
split-lacking sep [] h = refl
split-lacking sep (c ∷ p) (h, hs) = ground (arith, split-lacking sep p hs)

pub split-append :
    (sep : ℕ) (p rest : Str) → Lacks sep p → split sep (p ++ sep ∷ rest) ≡ p ∷ split sep rest
unfolding split
split-append sep [] rest h = ground arith
split-append sep (c ∷ p) rest (h, hs) = ground (arith, split-append sep p rest hs)

-- strings.SplitN(s, sep, 2), and a cut at the first separator as net.ParseCIDR makes it: the part
-- before it, and `some` of the part behind it where there is one.
unfoldable pub cut : ℕ → Str → Str × Option Str
cut sep [] = ([], none)
cut sep (c ∷ s) = let (p, rest) = cut sep s in if c == sep then ([], some s) else (c ∷ p, rest)

pub cut-append : (sep : ℕ) (p rest : Str) → Lacks sep p → cut sep (p ++ sep ∷ rest) ≡ (p, some rest)
unfolding cut
cut-append sep [] rest h = ground arith
cut-append sep (c ∷ p) rest (h, hs) = ground (arith, cut-append sep p rest hs)

pub cut-lacking : (sep : ℕ) (p : Str) → Lacks sep p → cut sep p ≡ (p, none)
unfolding cut
cut-lacking sep [] h = refl
cut-lacking sep (c ∷ p) (h, hs) = ground (arith, cut-lacking sep p hs)

-- strings.HasPrefix(s, p) and strings.Contains(s, p).
unfoldable pub has_prefix : Str → Str → Bool
has_prefix s [] = true
has_prefix [] (b ∷ p) = false
has_prefix (a ∷ s) (b ∷ p) = a == b && has_prefix s p

unfoldable pub contains : Str → Str → Bool
unfolding has_prefix
contains [] p = has_prefix [] p
contains (a ∷ s) p = has_prefix (a ∷ s) p || contains s p

pub has_prefix-append : (p s : Str) → has_prefix (p ++ s) p ≡ true
unfolding has_prefix
has_prefix-append [] s = refl
has_prefix-append (a ∷ p) s = ground (arith, has_prefix-append p s)

pub contains-append : (q p s : Str) → contains (q ++ (p ++ s)) p ≡ true
unfolding contains
contains-append [] [] [] = refl
contains-append [] [] (a ∷ s) = refl
contains-append [] (b ∷ p) s = ground (arith, has_prefix-append (b ∷ p) s)
contains-append (a ∷ q) p s = ground (arith, contains-append q p s)

-- A run of decimal digits, with its value; `none` at any other byte.
unfoldable pub digits_from : ℕ → Str → Option ℕ
digits_from n [] = some n
digits_from n (c ∷ s) =
    if leb b'0' c && leb c b'9' then digits_from (n * 10 + (c - b'0')) s else none

-- The empty text is no number.
unfoldable pub atoi : Str → Option ℕ
unfolding digits_from
atoi [] = none
atoi (c ∷ s) = digits_from 0 (c ∷ s)

-- The decimal text of a byte.
unfoldable pub byte_text : ℕ → Str
byte_text n =
    if ltb n 10
    then (b'0' + n) ∷ []
    else if ltb n 100
    then (b'0' + n / 10) ∷ (b'0' + n % 10) ∷ []
    else (b'0' + n / 100) ∷ (b'0' + n / 10 % 10) ∷ (b'0' + n % 10) ∷ []
