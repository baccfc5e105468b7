-- ===== src/Store/Preview.antt =====
-- previewFor and foldLine of internal/store/store.go. `text_body` is what json.Unmarshal reads of a
-- body: the text, if it is an object whose type is "text".
use Prim.Native.Char.{Char, code}
use Prim.Native.String.{count}
use nox_app.Base.{
  ℕ, zero, suc, String, Bool, true, false, ◌&&◌, ◌||◌, Option, none, some, leb, ◌==◌, if◌then◌else◌,
  same,
}

-- unicode.IsSpace.
is_space_code : ℕ → Bool
is_space_code c =
    (leb 9 c && leb c 13)
    || c == 32
    || c == 0x85
    || c == 0xA0
    || c == 0x1680
    || (leb 0x2000 c && leb c 0x200A)
    || c == 0x2028
    || c == 0x2029
    || c == 0x202F
    || c == 0x205F
    || c == 0x3000

unfoldable pub is_space : Char → Bool
unfolding is_space_code
is_space c = is_space_code (code c)

-- strings.Join(strings.Fields(s), " "): whether a field was written, and whether a gap came since.
unfoldable pub join_fields : Bool → Bool → String → String
join_fields written gap String.[] = String.[]
join_fields written gap (String.◌∷◌ c s) =
    let skipped = join_fields written true s in
    let kept = String.◌∷◌ c (join_fields true false s) in
    if is_space c then skipped else if written && gap then String.◌∷◌ " " kept else kept

-- The first runes of a text.
unfoldable pub take_runes : ℕ → String → String
take_runes zero s = String.[]
take_runes (suc n) String.[] = String.[]
take_runes (suc n) (String.◌∷◌ c s) = String.◌∷◌ c (take_runes n s)

unfoldable pub fold_line : String → String
unfolding join_fields take_runes
fold_line s =
    let folded = join_fields false false s in
    if leb (count folded) 120 then folded else take_runes 120 folded

abbrev pub preview_or_name : Option String → String → String
preview_or_name none name = fold_line name
preview_or_name (some text) name =
    let folded = fold_line text in if same folded "" then fold_line name else folded

unfoldable pub preview_for : (String → Option String) → String → String → String
preview_for text_body body name = preview_or_name (text_body body) name
