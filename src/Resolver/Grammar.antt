-- ===== src/Resolver/Grammar.antt =====
-- src/transport/resolver.rs: the grammar of canonical identifiers, "bol:" fp "/" namespace "/" path.
-- A position in the identifier is what is left of it from there on.
use bolina_rs.Prelude.{
  ℕ, ◌+◌, Bool, true, false, not, ◌&&◌, ◌||◌, Option, none, some, [], ◌∷◌, length, get_or, take,
  drop, leb, ltb, ◌==◌, if◌then◌else◌,
}
use bolina_rs.Prelude.Bytes.{Bytes, bytes_eq, slice}

abbrev pub fp_hex_len : ℕ
fp_hex_len = 16

abbrev pub ns_max : ℕ
ns_max = 32

abbrev pub path_max : ℕ
path_max = 180

abbrev pub id_max : ℕ
id_max = 4 + fp_hex_len + 1 + ns_max + 1 + path_max

abbrev slash : ℕ
slash = 47

abbrev dot : ℕ
dot = 46

-- "bol:"
abbrev pub scheme : Bytes
scheme = 98 ∷ 111 ∷ 108 ∷ 58 ∷ []

unfoldable pub is_hex_lower : ℕ → Bool
is_hex_lower c = (leb 48 c && leb c 57) || (leb 97 c && leb c 102)

unfoldable pub is_ns_char : ℕ → Bool
is_ns_char c = (leb 97 c && leb c 122) || (leb 48 c && leb c 57) || c == 45

unfoldable pub is_path_char : ℕ → Bool
unfolding is_ns_char
is_path_char c = is_ns_char c || c == dot || c == 95

unfoldable pub seg_len_invalid : ℕ → ℕ → Bool
seg_len_invalid seg_len dots = seg_len == 0 || (dots == seg_len && leb seg_len 2)

unfoldable pub all_hex : Bytes → Bool
unfolding is_hex_lower
all_hex [] = true
all_hex (c ∷ cs) = is_hex_lower c && all_hex cs

-- The loop over the namespace: its length and what is left, unless a character is not of it.
unfoldable pub ns_loop : ℕ → Bytes → Option (ℕ × Bytes)
unfolding is_ns_char
ns_loop n [] = some (n, [])
ns_loop n (c ∷ cs) =
    let rest = ns_loop (n + 1) cs in
    if c == slash then some (n, c ∷ cs) else if is_ns_char c then rest else none

-- The loop over the path, and the test of its last segment.
unfoldable pub path_loop : ℕ → ℕ → Bytes → Bool
unfolding seg_len_invalid is_path_char
path_loop seg_len dots [] = not (seg_len_invalid seg_len dots)
path_loop seg_len dots (c ∷ cs) =
    let rest =
      path_loop (if c == slash then 0 else seg_len + 1)
        (if c == slash then 0 else if c == dot then dots + 1 else dots) cs in
    if not (is_path_char c) && not (c == slash)
    then false
    else if c == slash && seg_len_invalid seg_len dots
    then false
    else rest

unfoldable pub path_valid : Bytes → Bool
unfolding path_loop
path_valid [] = false
path_valid (c ∷ path) =
    c == slash && (path_loop 0 0 path && (leb 1 (length path) && leb (length path) path_max))

unfoldable pub after_ns : Option (ℕ × Bytes) → Bool
unfolding path_valid
after_ns none = false
after_ns (some (n, rest)) = if ltb n 1 || ltb ns_max n then false else path_valid rest

unfoldable pub validate_canonical : Bytes → Bool
unfolding all_hex ns_loop after_ns
validate_canonical id =
    if ltb (length id) (4 + fp_hex_len + 3)
    then false
    else if not (bytes_eq (take 4 id) scheme)
    then false
    else if not (all_hex (slice 4 (4 + fp_hex_len) id))
    then false
    else if not (get_or id (4 + fp_hex_len) 0 == slash)
    then false
    else after_ns (ns_loop 0 (drop (4 + fp_hex_len + 1) id))
