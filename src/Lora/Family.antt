-- ===== src/Lora/Family.antt =====
-- src/tuft/backends/vllm_lora_compat.py: the series and the architecture of a model, from the
-- `model_type` of its config.json or, without one, from its path. Texts are lists of code points;
-- `lower` changes the letters A to Z.
use tu_ft.Base.{
  ℕ, ◌+◌, String, Bool, true, false, not, ◌||◌, ◌&&◌, Option, none, some, List, [], ◌∷◌, leb, ◌==◌,
  if◌then◌else◌, is_some,
}
use Prim.Native.Char.{code}

pub data Series : Type 0 where
  llama : Series
  qwen : Series

pub data Architecture : Type 0 where
  qwen3_5 : Architecture
  qwen3_5_moe : Architecture

unfoldable pub codes : String → List ℕ
codes String.[] = []
codes (String.◌∷◌ c s) = code c ∷ codes s

-- s.lower()
unfoldable pub lower : List ℕ → List ℕ
lower [] = []
lower (n ∷ ns) = (if leb 65 n && leb n 90 then n + 32 else n) ∷ lower ns

-- What follows a prefix.
unfoldable pub after_prefix : List ℕ → List ℕ → Option (List ℕ)
after_prefix [] s = some s
after_prefix (p ∷ ps) [] = none
after_prefix (p ∷ ps) (c ∷ s) = let rest = after_prefix ps s in if p == c then rest else none

unfoldable pub starts_with : List ℕ → String → Bool
unfolding after_prefix codes
starts_with s prefix = is_some (after_prefix (codes prefix) s)

-- `word in s`
unfoldable pub contains : List ℕ → String → Bool
unfolding starts_with
contains [] word = starts_with [] word
contains (c ∷ s) word = starts_with (c ∷ s) word || contains s word

-- [a-z0-9], and [0-9]
unfoldable pub is_digit : ℕ → Bool
is_digit n = leb 48 n && leb n 57

unfoldable pub is_word : ℕ → Bool
unfolding is_digit
is_word n = is_digit n || leb 97 n && leb n 122

-- (?![a-z0-9])
unfoldable pub ends_word : List ℕ → Bool
unfolding is_word
ends_word [] = true
ends_word (c ∷ s) = not (is_word c)

-- `[._][568](?![a-z0-9])`
unfoldable version_follows : List ℕ → Bool
unfolding ends_word
version_follows (a ∷ b ∷ s) = (a == 46 || a == 95) && (b == 53 || b == 54 || b == 56) && ends_word s
version_follows _ = false

unfoldable qwen3_5_here : List ℕ → Bool
unfolding after_prefix codes version_follows
qwen3_5_here s = elim (after_prefix (codes "qwen3") s) [
  | none ↦ false
  | some rest ↦ version_follows rest
]

-- The rest of `\d+b(?![a-z0-9])`, and the whole of `a\d+b(?![a-z0-9])`.
unfoldable digits_then_b : List ℕ → Bool
unfolding is_digit ends_word
digits_then_b [] = false
digits_then_b (c ∷ s) =
    let more = digits_then_b s in if is_digit c then more else c == 98 && ends_word s

unfoldable moe_here : List ℕ → Bool
unfolding is_digit digits_then_b
moe_here (a ∷ d ∷ s) = a == 97 && is_digit d && digits_then_b s
moe_here _ = false

-- re.search of a pattern that begins with `(?<![a-z0-9])`, from a place of which `before` says
-- whether a letter or a digit stands before it
unfoldable pub search_word : (List ℕ → Bool) → (before : Bool) → List ℕ → Bool
unfolding is_word
search_word here before [] = not before && here []
search_word here before (c ∷ s) = not before && here (c ∷ s) || search_word here (is_word c) s

unfoldable pub series_from_model_type : List ℕ → Option Series
unfolding starts_with
series_from_model_type t =
    if starts_with t "qwen" then some qwen else (if starts_with t "llama" then some llama else none)

unfoldable pub series_from_path : List ℕ → Option Series
unfolding contains
series_from_path p =
    if contains p "qwen" then some qwen else (if contains p "llama" then some llama else none)

unfoldable pub architecture_from_model_type : List ℕ → Option Architecture
unfolding starts_with
architecture_from_model_type t =
    if starts_with t "qwen3_5_moe"
    then some qwen3_5_moe
    else (if starts_with t "qwen3_5" then some qwen3_5 else none)

unfoldable pub architecture_from_path : List ℕ → Option Architecture
unfolding search_word qwen3_5_here moe_here
architecture_from_path p =
    if search_word qwen3_5_here false p
    then (if search_word moe_here false p then some qwen3_5_moe else some qwen3_5)
    else none

-- resolve_model_series_and_architecture; `model_type` is that of the config.json under the path,
-- the empty text if it has none, and `none` if the file is missing or cannot be read.
unfoldable pub resolve_model :
    (model_type : Option String) → (model_path : String) → Option Series × Option Architecture
unfolding codes lower series_from_model_type architecture_from_model_type series_from_path
    architecture_from_path
resolve_model (some t) path =
    (series_from_model_type (lower (codes t)), architecture_from_model_type (lower (codes t)))
resolve_model none path =
    (series_from_path (lower (codes path)), architecture_from_path (lower (codes path)))
