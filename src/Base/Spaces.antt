-- ===== src/Base/Spaces.antt =====
-- Go's strings package on white space and commas, over the characters of a text.
use Prim.Native.Char.{Char, code}
use Prim.Native.String.{String, [], ◌∷◌}
use mathlib.Core.Bool.{Bool, ◌&&◌, ◌||◌}
use mathlib.Core.List.{List}
use mathlib.Core.List as L
use text.Mathlib.Text.{◌==◌}
use inferbolt.Base.Tests.{leb, eqb, if◌then◌else◌}

-- `unicode.IsSpace`
abbrev pub is_space : Char → Bool
is_space c =
    (leb 9 (code c) && leb (code c) 13)
    || (eqb (code c) 32
        || (eqb (code c) 133
            || (eqb (code c) 160
                || (eqb (code c) 5760
                    || ((leb 8192 (code c) && leb (code c) 8202)
                        || (eqb (code c) 8232
                            || (eqb (code c) 8233
                                || (eqb (code c) 8239
                                    || (eqb (code c) 8287 || eqb (code c) 12288)))))))))

unfoldable pub trim_left : String → String
trim_left [] = []
trim_left (c ∷ s) = let rest = trim_left s in if is_space c then rest else c ∷ s

unfoldable pub trim_right : String → String
trim_right [] = []
trim_right (c ∷ s) = let rest = trim_right s in if is_space c && (rest == "") then [] else c ∷ rest

-- `strings.TrimSpace`
unfoldable pub trim_space : String → String
unfolding trim_left trim_right
trim_space s = trim_right (trim_left s)

abbrev flushed : String → List String → List String
flushed word rest = if word == "" then rest else L.◌∷◌ word rest

-- The word that a text starts in, maybe empty, and the words behind it.
unfoldable pub words_of : String → String × List String
words_of [] = ("", L.[])
words_of (c ∷ s) =
    let rest = words_of s in
    if is_space c then ("", flushed rest.0 rest.1) else (c ∷ rest.0, rest.1)

-- `strings.Fields`
unfoldable pub fields : String → List String
unfolding words_of
fields s = flushed (words_of s).0 (words_of s).1
