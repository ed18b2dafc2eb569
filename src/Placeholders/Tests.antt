-- ===== src/Placeholders/Tests.antt =====
-- packages/server/src/domain/template-placeholders.ts: slots of concrete texts.
use Prim.Native.String.{String}
use mathlib.Core.List.{[], ◌∷◌}
use text.Mathlib.TextEquality.{eq_iff}
use whaloc.Base.{List, ◌≡◌, refl, IsDistinct}
use whaloc.Placeholders.{extract_placeholders}
use whaloc.Placeholders.Scanning.{render, extract_placeholders-render}

abbrev slots : List (String × String)
slots = ("Hi ", "a") ∷ (", ", "b") ∷ (" and ", "a") ∷ []

extract_placeholders-render_example :
    (extract_placeholders (render slots "!") ≡ "a" ∷ "b" ∷ [])
    × IsDistinct (λ n. n) (extract_placeholders (render slots "!"))
extract_placeholders-render_example =
    extract_placeholders-render slots "!"
      (
        (refl, (refl, (refl, tt))),
        (λ e. cc ((eq_iff "a" "").1 e)),
        (refl, tt),
        (
          (refl, (refl, tt)),
          (λ e. cc ((eq_iff "b" "").1 e)),
          (refl, tt),
          (
            (refl, (refl, (refl, (refl, (refl, tt))))),
            (λ e. cc ((eq_iff "a" "").1 e)),
            (refl, tt),
            tt,
          ),
        ),
      )
      (refl, tt)
