-- ===== src/Control/Text.antt =====
-- Texts as lists of code points, with the operations of Python and of SQLite that
-- controller/services.py uses.
use Prim.Native.Char.{code}
use Prim.Native.String.{String, [] as []ˢ, ◌∷◌ as ◌∷ˢ◌}
use twitch_car_factory.Base.{
  ℕ, ◌+◌, Bool, true, false, ◌&&◌, ◌||◌, List, [], ◌∷◌, leb, ltb, ◌==◌, nat_eq, contains, is_empty,
  length, all_of, map, if◌then◌else◌,
}

abbrev pub Text : Type 0
Text = List ℕ

-- A literal of the source.
unfoldable pub text : String → Text
text []ˢ = []
text (c ∷ˢ s) = code c ∷ text s

-- `str.isspace`
unfoldable pub is_space : ℕ → Bool
is_space c =
    (leb 9 c && leb c 13)
    || (leb 28 c && leb c 32)
    || (leb 8192 c && leb c 8202)
    || contains c (133 ∷ 160 ∷ 5760 ∷ 8232 ∷ 8233 ∷ 8239 ∷ 8287 ∷ 12288 ∷ [])

abbrev pub strip_left : Text → Text
strip_left [] = []
strip_left (c ∷ cs) = if is_space c then strip_left cs else c ∷ cs

abbrev pub strip_right : Text → Text
strip_right [] = []
strip_right (c ∷ cs) =
    let rest = strip_right cs in if is_space c && is_empty rest then [] else c ∷ rest

-- `s.strip()`
unfoldable pub strip : Text → Text
strip s = strip_left (strip_right s)

-- `[,\r\n]`
unfoldable pub is_separator : ℕ → Bool
is_separator c = contains c (44 ∷ 13 ∷ 10 ∷ [])

abbrev begins_with_separator : Text → Bool
begins_with_separator [] = false
begins_with_separator (c ∷ _) = is_separator c

abbrev prepend : ℕ → List Text → List Text
prepend c [] = (c ∷ []) ∷ []
prepend c (piece ∷ pieces) = (c ∷ piece) ∷ pieces

-- `re.split(r"[,\r\n]+", s)`
unfoldable pub split : Text → List Text
split [] = [] ∷ []
split (c ∷ cs) =
    let rest = split cs in
    if is_separator c then if begins_with_separator cs then rest else [] ∷ rest else prepend c rest

-- `[A-Za-z0-9_]`
unfoldable pub is_word : ℕ → Bool
is_word c = (leb 65 c && leb c 90) || (leb 97 c && leb c 122) || (leb 48 c && leb c 57) || c == 95

-- `CHANNEL_RE.fullmatch(s)`
unfoldable pub valid_channel : Text → Bool
valid_channel s = all_of is_word s && leb 1 (length s) && leb (length s) 100

abbrev lower : ℕ → ℕ
lower c = if leb 65 c && leb c 90 then c + 32 else c

-- Case folding of ASCII letters: `casefold` on a channel's name, and the comparison `__iexact` of
-- SQLite.
unfoldable pub fold_case : Text → Text
fold_case s = map lower s

-- The order of SQLite on texts.
unfoldable pub text_leb : Text → Text → Bool
text_leb [] _ = true
text_leb (_ ∷ _) [] = false
text_leb (a ∷ as') (b ∷ bs) = ltb a b || (a == b && text_leb as' bs)
