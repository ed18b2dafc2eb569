-- ===== src/Tokens/Masks.antt =====
-- packages/server/src/domain/token-registry.ts: the masked form of a token. A text is counted by
-- its characters.
use Prim.Native.Nat.{zero, suc, min}
use Prim.Native.String.{[], ◌∷◌, ◌++◌}
use whaloc.Base.{text_length, String, ℕ, ◌-◌, leb, if◌then◌else◌}

abbrev pub visible_suffix : ℕ
visible_suffix = 4

abbrev max_mask_dots : ℕ
max_mask_dots = 12

abbrev dots : ℕ → String
dots zero = ""
dots (suc n) = "•" ++ dots n

abbrev drop_text : ℕ → String → String
drop_text zero s = s
drop_text (suc n) [] = []
drop_text (suc n) (c ∷ s) = drop_text n s

-- `s.slice(-n)`
abbrev pub last_part : ℕ → String → String
last_part n s = drop_text (text_length s - n) s

abbrev pub mask_token : String → String
mask_token token =
    if leb (text_length token) visible_suffix
    then dots (text_length token)
    else dots (min (text_length token - visible_suffix) max_mask_dots)
      ++ last_part visible_suffix token
