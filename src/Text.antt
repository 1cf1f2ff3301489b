-- ===== src/Text.antt =====
-- The texts that the Python code builds and trims: `str.strip` and the name format of checkpoints.
use tu_ft.Base.{
  ℕ, zero, suc, String, Bool, true, false, ◌||◌, ◌&&◌, List, [], ◌∷◌, ltb, leb, ◌==◌, if◌then◌else◌,
}
use Prim.Native.Nat.{◌/◌, ◌%◌}
use Prim.Native.String.{◌++◌}
use Prim.Native.Char.{code}

-- str.isspace on one code point
unfoldable pub is_space : ℕ → Bool
is_space n =
    leb 9 n && leb n 13
    || leb 28 n && leb n 32
    || n == 133
    || n == 160
    || n == 5760
    || leb 8192 n && leb n 8202
    || n == 8232
    || n == 8233
    || n == 8239
    || n == 8287
    || n == 12288

unfoldable pub is_empty : String → Bool
is_empty String.[] = true
is_empty (String.◌∷◌ c s) = false

unfoldable lstrip : String → String
unfolding is_space
lstrip String.[] = String.[]
lstrip (String.◌∷◌ c s) = let rest = lstrip s in if is_space (code c) then rest else String.◌∷◌ c s

unfoldable rstrip : String → String
unfolding is_space is_empty
rstrip String.[] = String.[]
rstrip (String.◌∷◌ c s) =
    let rest = rstrip s in
    if is_space (code c) && is_empty rest then String.[] else String.◌∷◌ c rest

-- s.strip()
unfoldable pub strip : String → String
unfolding lstrip rstrip
strip s = rstrip (lstrip s)

unfoldable nth : List String → ℕ → String
nth [] n = ""
nth (s ∷ rest) zero = s
nth (s ∷ rest) (suc n) = nth rest n

unfoldable digit : ℕ → String
unfolding nth
digit n = nth ("0" ∷ "1" ∷ "2" ∷ "3" ∷ "4" ∷ "5" ∷ "6" ∷ "7" ∷ "8" ∷ "9" ∷ []) n

-- The number has at most as many digits as itself, so `fuel` above it is enough.
unfoldable pub decimal : (fuel : ℕ) → ℕ → String
unfolding digit
decimal zero n = ""
decimal (suc fuel) n =
    let front = decimal fuel (n / 10) in if ltb n 10 then digit n else front ++ digit (n % 10)

unfoldable pad : ℕ → String → String
pad zero s = s
pad (suc n) s = "0" ++ pad n s

-- f"checkpoint-{counter:04d}"
unfoldable pub checkpoint_name : ℕ → String
unfolding decimal pad
checkpoint_name counter =
    let zeros =
      if ltb counter 10
      then 3
      else (if ltb counter 100 then 2 else (if ltb counter 1000 then 1 else 0)) in
    "checkpoint-" ++ pad zeros (decimal (suc counter) counter)
