-- ===== src/Prelude/Texts.antt =====
-- Go's order on strings, by their code points, and sort.Strings. For valid UTF-8 the order of the
-- bytes is that of the code points.
use Prim.Native.Char.{code}
use Prim.Native.String.{String, [], ◌∷◌}
use mathlib.Core.Path.{◌≡◌, refl, ap₂}
use mathlib.Core.Bool.{Bool, true, false}
use native.Mathlib.Omega.{arith}
use text.Mathlib.TextEquality.{Char-path}
use psk_db.Prelude.Tests.{ltb, eqb, if◌then◌else◌}

-- s <= t
abbrev pub text_leb : String → String → Bool
text_leb [] t = true
text_leb (c ∷ s) [] = false
text_leb (c ∷ s) (d ∷ t) =
    let rest = text_leb s t in
    if ltb (code c) (code d) then true else if eqb (code c) (code d) then rest else false

abbrev pub TextLe : String → String → Type 0
TextLe s t = text_leb s t ≡ true

pub TextLe-trans : (s t u : String) → TextLe s t → TextLe t u → TextLe s u
TextLe-trans [] t u h k = refl
TextLe-trans (c ∷ s) (d ∷ t) (e ∷ u) h k = ground (arith, TextLe-trans s t u)
TextLe-trans (c ∷ s) [] u h k = absurd (ground arith)
TextLe-trans (c ∷ s) (d ∷ t) [] h k = absurd (ground arith)

pub text_leb_total : (s t : String) → text_leb s t ≡ false → TextLe t s
text_leb_total [] t h = absurd (ground arith)
text_leb_total (c ∷ s) [] h = refl
text_leb_total (c ∷ s) (d ∷ t) h = ground (arith, text_leb_total s t)

pub TextLe-antisymm : (s t : String) → TextLe s t → TextLe t s → s ≡ t
TextLe-antisymm [] [] h k = refl
TextLe-antisymm (c ∷ s) (d ∷ t) h k =
    ap₂ ◌∷◌ (Char-path c d (ground arith)) (TextLe-antisymm s t (ground arith) (ground arith))
TextLe-antisymm [] (d ∷ t) h k = absurd (ground arith)
TextLe-antisymm (c ∷ s) [] h k = absurd (ground arith)
