-- ===== src/Dict/Unique.antt =====
-- A dict holds each key once, and its operations keep it so.
use tu_ft.Base.{String, ◌≡◌, refl, Bool, none, List, [], ◌∷◌, arith, eq_iff}
use tu_ft.Dict.{Dict, get, put, pop, pop_all, elem, keys_where, test_at, get-put, get-pop}

module _ {ℓ} {V : Type ℓ} where
  abbrev pub IsUnique : Dict V → Type ℓ
  IsUnique [] = Unit
  IsUnique ((k, v) ∷ d) = (get d k ≡ none) × IsUnique d

  pub put-IsUnique : (d : Dict V) (k : String) (v : V) → IsUnique d → IsUnique (put d k v)
  unfolding put get
  put-IsUnique [] k v u = (refl, tt)
  put-IsUnique ((i, w) ∷ d) k v u =
      ground (arith, eq_iff i k, eq_iff k i, get-put d k i v, put-IsUnique d k v u.1)

  pub pop-IsUnique : (d : Dict V) (k : String) → IsUnique d → IsUnique (pop d k)
  unfolding pop
  pop-IsUnique [] k u = tt
  pop-IsUnique ((i, w) ∷ d) k u = ground (arith, get-pop d k i, pop-IsUnique d k u.1)

  pub pop_all-IsUnique : (d : Dict V) (ks : List String) → IsUnique d → IsUnique (pop_all d ks)
  unfolding pop_all
  pop_all-IsUnique d [] u = u
  pop_all-IsUnique d (k ∷ ks) u = pop_all-IsUnique (pop d k) ks (pop-IsUnique d k u)

-- A key is among those that a test on the values selects, exactly where its value passes the test.
pub elem-keys_where {ℓ} :
    {V : Type ℓ} (test : V → Bool) (d : Dict V) (k : String)
    → IsUnique d
    → elem (keys_where test d) k ≡ test_at test (get d k)
unfolding keys_where elem get
elem-keys_where test [] k u = refl
elem-keys_where test ((i, w) ∷ d) k u =
    ground (arith, eq_iff i k, elem-keys_where test d k u.1, elem-keys_where test d i u.1)
