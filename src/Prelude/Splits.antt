-- ===== src/Prelude/Splits.antt =====
-- Texts that are joined by a separator of one character, and split at it again.
use Prim.Native.Nat.{ℕ}
use Prim.Native.Char.{Char, char, code}
use Prim.Native.String.{String, ◌++◌}
use mathlib.Core.Path.{◌≡◌, refl, ap, ◌∙◌}
use mathlib.Core.Bool.{Bool, true, not, ◌&&◌}
use mathlib.Core.List.{List, [], ◌∷◌}
use native.Mathlib.Omega.{arith}
use text.Mathlib.TextLemmas.{cons-append, nil-append}
use routr.Prelude.Tests.{◌==◌, nat_eq}
use routr.Prelude.Text.{split, ascii}
use routr.Prelude.Lists.{All}

-- The character is not in the text.
unfoldable pub lacks : ℕ → String → Bool
lacks sep String.[] = true
lacks sep (String.◌∷◌ c s) = not (code c == sep) && lacks sep s

abbrev pub comma : Char
comma = char 44 (ascii 44 (omega arith))

abbrev pub equals : Char
equals = char 61 (ascii 61 (omega arith))

-- parts.join(c)
unfoldable pub join : Char → List String → String
join c [] = ""
join c (s ∷ []) = s
join c (s ∷ t ∷ rest) = s ++ String.◌∷◌ c (join c (t ∷ rest))

pub split-lacks : (sep : ℕ) (s : String) → lacks sep s ≡ true → split sep s ≡ s ∷ []
unfolding split lacks
split-lacks sep String.[] h = refl
split-lacks sep (String.◌∷◌ c s) h = ground (arith, split-lacks sep s)

pub split-append :
    (c : Char) (s t : String)
    → lacks (code c) s ≡ true
    → split (code c) (s ++ String.◌∷◌ c t) ≡ s ∷ split (code c) t
unfolding split lacks
split-append c String.[] t h = rw (nil-append (String.◌∷◌ c t)) (ground arith)
split-append c (String.◌∷◌ d s) t h =
    let rest = split-append c s t in rw (cons-append d s (String.◌∷◌ c t)) (ground arith)

pub split-join :
    (c : Char) (s : String) (rest : List String)
    → All (λ x. lacks (code c) x ≡ true) (s ∷ rest)
    → split (code c) (join c (s ∷ rest)) ≡ s ∷ rest
unfolding join
split-join c s [] h = split-lacks (code c) s h.0
split-join c s (t ∷ rest) h =
    split-append c s (join c (t ∷ rest)) h.0 ∙ ap (λ x. s ∷ x) (split-join c t rest h.1)
