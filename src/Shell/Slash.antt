-- ===== src/Shell/Slash.antt =====
-- shell/submit.go: a slash command split into its name and arguments.
use Prim.Native.Char.{Char, code}
use Prim.Native.String.{String, [], ◌∷◌, ◌++◌}
use mathlib.Core.List.{List, [] as nil, ◌∷◌ as ◌::◌}
use mathlib.Core.Bool.{Bool, false, ◌&&◌, ◌||◌}
use piglet.Prelude.{leb, ◌==◌, if◌then◌else◌}

-- White space as `strings.Fields` takes it.
abbrev is_space : Char → Bool
is_space c =
    let n = code c in
    leb 9 n && leb n 13
    || n == 32
    || n == 133
    || n == 160
    || n == 5760
    || leb 8192 n && leb n 8202
    || n == 8232
    || n == 8233
    || n == 8239
    || n == 8287
    || n == 12288

abbrev end_word : String → List String → List String
end_word [] rest = rest
end_word (c ∷ w) rest = (c ∷ w) :: rest

-- `strings.Fields`, with the word that is read.
unfoldable pub fields : String → String → List String
fields [] word = end_word word nil
fields (c ∷ s) word =
    let rest = fields s [] in
    let more = fields s (word ++ (c ∷ [])) in if is_space c then end_word word rest else more

-- `strings.Join` with one space.
unfoldable pub join : List String → String
join nil = []
join (x :: nil) = x
join (x :: y :: ys) = (x ++ " ") ++ join (y :: ys)

-- `strings.HasPrefix(text, "/")`
unfoldable pub is_slash : String → Bool
is_slash [] = false
is_slash (c ∷ s) = code c == 47

abbrev trim_slash : String → String
trim_slash [] = []
trim_slash (c ∷ s) = if code c == 47 then s else c ∷ s

abbrev name_and_args : List String → String × String
name_and_args nil = ("", "")
name_and_args (name :: args) = (name, join args)

-- `parseSlashCommand`
unfoldable pub parse_slash_command : String → String × String
unfolding fields join
parse_slash_command text = name_and_args (fields (trim_slash text) "")
