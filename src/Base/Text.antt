-- ===== src/Base/Text.antt =====
-- Texts that the program walks, as lists of code points, with the methods of Python's `str` that
-- the modelled code calls. Case is changed for A-Z and a-z alone: the few other letters that
-- Python turns into these (the dotless i, the long s, the Kelvin sign) are left as they are.
use Prim.Native.Nat.{ℕ, ◌/◌, ◌%◌, ◌+◌, ◌-◌, ◌≤◌, zero, suc, max}
use Prim.Native.Char.{code}
use Prim.Native.String.{String}
use mathlib.Core.Path.{◌≡◌, refl, ap, ◌∙◌}
use mathlib.Core.Bool.{Bool, true, false, ◌&&◌, ◌||◌}
use mathlib.Core.Logic.{◌↔◌}
use mathlib.Core.List.{List, [], ◌∷◌, ◌++◌, map, reverse}
use native.Mathlib.Omega.{arith}
use kis_api_trend_atr.Base.Tests.{ltb, leb, eqb, if◌then◌else◌}
use kis_api_trend_atr.Base.Lists.{length, length-append}
use kis_api_trend_atr.Base.Eq.{Keyed}

abbrev pub Text : Type 0
Text = List ℕ

-- The code points of a text. `String` has its own `[]` and `∷`.
abbrev pub codes : String → Text
codes String.[] = []
codes (String.◌∷◌ c s) = code c ∷ codes s

-- `str.isspace` of one character
abbrev pub is_space : ℕ → Bool
is_space c =
    (leb 9 c && leb c 13)
    || (leb 28 c && leb c 32)
    || eqb c 133
    || eqb c 160
    || eqb c 5760
    || (leb 8192 c && leb c 8202)
    || eqb c 8232
    || eqb c 8233
    || eqb c 8239
    || eqb c 8287
    || eqb c 12288

unfoldable pub lstrip : Text → Text
lstrip [] = []
lstrip (c ∷ s) = if is_space c then lstrip s else c ∷ s

-- `s.strip()`
unfoldable pub strip : Text → Text
unfolding lstrip
strip s = reverse (lstrip (reverse (lstrip s)))

abbrev lower_code : ℕ → ℕ
lower_code c = if leb 65 c && leb c 90 then c + 32 else c

abbrev upper_code : ℕ → ℕ
upper_code c = if leb 97 c && leb c 122 then c - 32 else c

-- `s.lower()`, where ASCII letters alone change
unfoldable pub lower : Text → Text
lower s = map lower_code s

-- `s.upper()`, where ASCII letters alone change
unfoldable pub upper : Text → Text
upper s = map upper_code s

unfoldable pub text_beq : Text → Text → Bool
text_beq [] [] = true
text_beq [] (d ∷ t) = false
text_beq (c ∷ s) [] = false
text_beq (c ∷ s) (d ∷ t) = eqb c d && text_beq s t

text_beq_sound : (s t : Text) → text_beq s t ≡ true → s ≡ t
unfolding text_beq
text_beq_sound [] [] h = refl
text_beq_sound [] (d ∷ t) h = ground arith
text_beq_sound (c ∷ s) [] h = ground arith
text_beq_sound (c ∷ s) (d ∷ t) h = ground (arith, text_beq_sound s t)

text_beq_refl : (s : Text) → text_beq s s ≡ true
unfolding text_beq
text_beq_refl [] = refl
text_beq_refl (c ∷ s) = ground (arith, text_beq_refl s)

pub text_beq_iff : (s t : Text) → (text_beq s t ≡ true) ↔ (s ≡ t)
text_beq_iff s t = (text_beq_sound s t, λ e. ground (arith, text_beq_refl s))

instance abbrev pub text_keyed : Keyed Text
text_keyed = record { same = text_beq; same_iff = text_beq_iff }

zeros : ℕ → Text
zeros zero = []
zeros (suc n) = 48 ∷ zeros n

pad : ℕ → Text → Text
pad n [] = zeros n
pad n (c ∷ s) = if eqb c 43 || eqb c 45 then c ∷ (zeros n ++ s) else zeros n ++ c ∷ s

-- `s.zfill(width)`: a leading sign stays in front.
unfoldable pub zfill : ℕ → Text → Text
unfolding zeros pad
zfill width s = pad (width - length s) s

length-zeros : (n : ℕ) → length (zeros n) ≡ n
unfolding zeros
length-zeros zero = refl
length-zeros (suc n) = ap suc (length-zeros n)

length-pad : (n : ℕ) (s : Text) → length (pad n s) ≡ n + length s
unfolding pad
length-pad n [] = omega (arith, length-zeros n)
length-pad n (c ∷ s) =
    ground (arith, length-append (zeros n) s, length-append (zeros n) (c ∷ s), length-zeros n)

pad-zero : (s : Text) → pad 0 s ≡ s
unfolding pad zeros
pad-zero [] = refl
pad-zero (c ∷ s) = ground arith

pub length-zfill : (width : ℕ) (s : Text) → length (zfill width s) ≡ max width (length s)
unfolding zfill
length-zfill width s = omega (arith, length-pad (width - length s) s)

pub zfill_wide : (width : ℕ) (s : Text) → width ≤ length s → zfill width s ≡ s
unfolding zfill
zfill_wide width s h =
    let none_left : width - length s ≡ 0 = omega arith in ap (λ n. pad n s) none_left ∙ pad-zero s

-- A text that has been filled once is left alone.
pub zfill_idem : (width : ℕ) (s : Text) → zfill width (zfill width s) ≡ zfill width s
zfill_idem width s = zfill_wide width (zfill width s) (omega (arith, length-zfill width s))

-- `str(n)` of a number from 0 on, on fuel: a number has at most as many digits as it counts.
unfoldable pub digits : ℕ → ℕ → Text → Text
digits zero n s = s
digits (suc fuel) n s =
    let rest = digits fuel (n / 10) ((48 + n % 10) ∷ s) in if ltb n 10 then (48 + n) ∷ s else rest

unfoldable pub decimal : ℕ → Text
unfolding digits
decimal n = digits (suc n) n []

-- whether the second string is the smaller one, in Python's order
unfoldable pub text_before : Text → Text → Bool
text_before [] t = false
text_before (c ∷ s) [] = true
text_before (c ∷ s) (d ∷ t) = let rest = text_before s t in if eqb c d then rest else ltb d c
