-- ===== src/Scopes.antt =====
-- oauth_scopes.go, and the functions of Go's package `strings` on blank space that it and account_identity.go call.
pub mod Merged
use Prim.Native.Char.{code}
use Prim.Native.String
use Prim.Native.String.{◌++◌ as append_text}
use better_auth_go.Prelude.{
  ℕ, String, Bool, true, false, ◌||◌, ◌&&◌, List, [], ◌∷◌, ◌++◌, ltb, leb, compare, Ordering, ◌==◌,
  if◌then◌else◌, contains,
}

-- unicode.IsSpace
is_space : ℕ → Bool
is_space c =
    (leb 9 c && leb c 13)
    || same c 32
    || same c 133
    || same c 160
    || same c 5760
    || (leb 8192 c && leb c 8202)
    || same c 8232
    || same c 8233
    || same c 8239
    || same c 8287
    || same c 12288
  where
    same : ℕ → ℕ → Bool
    same x y = leb x y && leb y x

-- the word read so far, and the words of the rest of the text
add_word : String → List String → List String
add_word word rest = if word == "" then rest else word ∷ rest

words : String → String → List String
unfolding is_space add_word
words word String.[] = add_word word []
words word (String.◌∷◌ c s) =
    let stop = add_word word (words "" s) in
    let more = words (append_text word (String.◌∷◌ c "")) s in
    if is_space (code c) then stop else more

-- strings.Fields
unfoldable pub fields_of : String → List String
unfolding words
fields_of s = words "" s

-- strings.TrimSpace
trim_left : String → String
unfolding is_space
trim_left String.[] = ""
trim_left (String.◌∷◌ c s) = if is_space (code c) then trim_left s else String.◌∷◌ c s

blank : String → Bool
unfolding is_space
blank String.[] = true
blank (String.◌∷◌ c s) = is_space (code c) && blank s

trim_right : String → String
unfolding blank
trim_right String.[] = ""
trim_right (String.◌∷◌ c s) =
    let rest = trim_right s in if blank (String.◌∷◌ c s) then "" else String.◌∷◌ c rest

unfoldable pub trim_space : String → String
unfolding trim_left trim_right
trim_space s = trim_right (trim_left s)

-- strings.Join(parts, " ")
unfoldable pub join_words : List String → String
join_words [] = ""
join_words (s ∷ []) = s
join_words (s ∷ t ∷ ts) = append_text s (append_text " " (join_words (t ∷ ts)))

-- the loops of mergeOAuthScopes: `ordered` also holds the keys of `seen`
unfoldable pub add_scopes : List String → List String → List String
add_scopes ordered [] = ordered
add_scopes ordered (s ∷ ss) =
    add_scopes (if contains ordered s then ordered else ordered ++ s ∷ []) ss

-- mergeOAuthScopes(existing, incoming), before and after the words are joined
unfoldable pub merged_scopes : String → String → List String
merged_scopes existing incoming =
    add_scopes (add_scopes [] (fields_of existing)) (fields_of incoming)

unfoldable pub merge_oauth_scopes : String → String → String
unfolding merged_scopes
merge_oauth_scopes existing incoming = join_words (merged_scopes existing incoming)
