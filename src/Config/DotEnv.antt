-- ===== src/Config/DotEnv.antt =====
-- config/dotenv.go: the lines of a `.env` file.
use modex_cloud.Prelude.{
  ℕ, zero, suc, any, Bool, false, ◌&&◌, ◌||◌, Option, none, some, List, [], ◌∷◌, leb, length,
  reverse, take, drop, ◌-◌, if◌then◌else◌, ◌==◌, nat_eq, text_eq,
}
use modex_cloud.Text.{Text, text, trim_space, has_prefix, trim_prefix}

-- The variables of the process, the latest value of a key first.
abbrev pub Env : Type 0
Env = List (Text × Text)

-- `os.LookupEnv` and `os.Getenv`.
unfoldable pub lookup : Env → Text → Option Text
lookup [] key = none
lookup ((k, v) ∷ env) key = if k == key then some v else lookup env key

unfoldable pub getenv : Env → Text → Text
getenv env key = elim (lookup env key) [ none ↦ [] | some v ↦ v ]

-- `os.Setenv`, which refuses a key or a value with a zero byte, and a key with `=`.
abbrev pub has_byte : ℕ → Text → Bool
has_byte b s = any (λ c. c == b) s

unfoldable pub setenv : Env → Text → Text → Env
setenv env key val =
    if (has_byte 0 key || has_byte b'=' key) || has_byte 0 val then env else (key, val) ∷ env

-- The lines that the scanner gives for the file that was found; it stops before a line that is too
-- long.
abbrev pub File : Type 0
File = List Text

-- What stands before and after the first `=`.
unfoldable pub cut_equals : Text → Option (Text × Text)
cut_equals [] = none
cut_equals (c ∷ s) =
    if c == b'='
    then some ([], s)
    else elim (cut_equals s) [ none ↦ none | some (k, v) ↦ some (c ∷ k, v) ]

abbrev quoted_by : ℕ → Text → Text → Bool
quoted_by q (a ∷ _) (b ∷ _) = a == q && b == q
quoted_by q _ _ = false

-- The first and the last byte of two at least.
unfoldable pub unquote : Text → Text
unquote s =
    if leb 2 (length s) && (quoted_by b'"' s (reverse s) || quoted_by b'\'' s (reverse s))
    then take (length s - 2) (drop 1 s)
    else s

-- The key and the value of a trimmed line.
unfoldable pub parse_line : Text → Option (Text × Text)
parse_line line =
    if line == [] || has_prefix line (text "#")
    then none
    else elim (cut_equals (trim_prefix line (text "export "))) [
      | none ↦ none
      | some (k, v) ↦
          if k == [] || trim_space k == []
          then none
          else some (trim_space k, unquote (trim_space v))
    ]

-- A key that the environment has is left alone.
unfoldable pub set_new : Env → Text × Text → Env
set_new env (key, val) = elim (lookup env key) [ some _ ↦ env | none ↦ setenv env key val ]

abbrev pub apply_parsed : Env → Option (Text × Text) → Env
apply_parsed env none = env
apply_parsed env (some kv) = set_new env kv

unfoldable pub apply_line : Env → Text → Env
apply_line env line = apply_parsed env (parse_line (trim_space line))

unfoldable pub apply_lines : Env → List Text → Env
unfolding apply_line
apply_lines env [] = env
apply_lines env (line ∷ lines) = apply_lines (apply_line env line) lines

-- `LoadDotEnv`, with no file where none was found or opened.
unfoldable pub load_dot_env : Option File → Env → Env
unfolding apply_lines
load_dot_env none env = env
load_dot_env (some lines) env = apply_lines env lines

-- `findDotEnv`: the first of at most so many directories, from the inner one, that has the file.
-- `parent` is `filepath.Dir` and `has_file` says where a file `.env` can be read.
unfoldable pub find_dot_env : (Text → Text) → (Text → Bool) → ℕ → Text → Option Text
find_dot_env parent has_file zero dir = none
find_dot_env parent has_file (suc n) dir =
    let further = find_dot_env parent has_file n (parent dir) in
    if has_file dir then some dir else if parent dir == dir then none else further
