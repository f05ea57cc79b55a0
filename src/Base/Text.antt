-- ===== src/Base/Text.antt =====
-- Text as the list of its code points, with Python's `str.strip`.
use Prim.Native.Nat.{ℕ, zero, suc, ◌+◌, ◌/◌, ◌%◌}
use mathlib.Core.Path.{◌≡◌, refl}
use native.Mathlib.Omega.{arith}
use Prim.Native.Char.{code}
use Prim.Native.String.{String}
use mathlib.Core.Bool.{Bool, true, false, ◌&&◌, ◌||◌}
use mathlib.Core.List.{List, [], ◌∷◌, ◌++◌, reverse}
use mathlib.Core.Option.{Option, none, some}
use resource_mgmt_app.Base.Lists.{==_refl}
use resource_mgmt_app.Base.Tests.{leb, ltb, ◌==◌, if◌then◌else◌}

abbrev pub Text : Type 0
Text = List ℕ

abbrev pub text : String → Text
text String.[] = []
text (String.◌∷◌ c s) = code c ∷ text s

abbrev between : ℕ → ℕ → ℕ → Bool
between lo hi c = leb lo c && leb c hi

-- the code points that `str.isspace` accepts
unfoldable pub is_space : ℕ → Bool
is_space c =
    between 9 13 c
    || between 28 32 c
    || c == 133
    || c == 160
    || c == 5760
    || between 8192 8202 c
    || c == 8232
    || c == 8233
    || c == 8239
    || c == 8287
    || c == 12288

pub lstrip : Text → Text
lstrip [] = []
lstrip (c ∷ cs) = if is_space c then lstrip cs else c ∷ cs

-- `text.strip()`
unfoldable pub strip : Text → Text
unfolding lstrip is_space
strip t = reverse (lstrip (reverse (lstrip t)))

abbrev pub is_empty : Text → Bool
is_empty [] = true
is_empty (_ ∷ _) = false

-- `note or ""`
abbrev pub or_empty : Option Text → Text
or_empty none = []
or_empty (some t) = t

-- `not (note or "").strip()`
unfoldable pub is_blank : Option Text → Bool
unfolding strip
is_blank note = is_empty (strip (or_empty note))

-- `(note or "").strip() or None`
unfoldable pub strip_or_none : Option Text → Option Text
unfolding strip is_blank
strip_or_none note = if is_blank note then none else some (strip (or_empty note))

-- `a == b`
abbrev pub eqb_text : Text → Text → Bool
eqb_text [] [] = true
eqb_text (a ∷ s) (b ∷ t) = a == b && eqb_text s t
eqb_text [] (_ ∷ _) = false
eqb_text (_ ∷ _) [] = false

-- `text in (…)`
abbrev pub is_one_of : Text → List Text → Bool
is_one_of t [] = false
is_one_of t (s ∷ ss) = eqb_text s t || is_one_of t ss

-- the digits of a number, with as much fuel as it may have
digits : ℕ → ℕ → Text
digits zero n = []
digits (suc fuel) n =
    let rest = digits fuel (n / 10) in
    if ltb n 10 then (48 + n) ∷ [] else rest ++ ((48 + n % 10) ∷ [])

-- `str(n)`
unfoldable pub decimal : ℕ → Text
unfolding digits
decimal n = digits (suc n) n

-- `str(n)` of an optional number
unfoldable pub decimal_or_none : Option ℕ → Text
unfolding decimal
decimal_or_none none = text "None"
decimal_or_none (some n) = decimal n

pub eqb_text_refl : (t : Text) → eqb_text t t ≡ true
eqb_text_refl [] = refl
eqb_text_refl (c ∷ t) = ground (arith, ==_refl c, eqb_text_refl t)

pub eq_of_eqb_text : (s t : Text) → eqb_text s t ≡ true → s ≡ t
eq_of_eqb_text [] [] h = refl
eq_of_eqb_text [] (_ ∷ _) h = cc
eq_of_eqb_text (_ ∷ _) [] h = cc
eq_of_eqb_text (a ∷ s) (b ∷ t) h = grind (arith, eq_of_eqb_text s t)
