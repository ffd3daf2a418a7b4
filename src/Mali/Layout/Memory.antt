-- ===== src/Mali/Layout/Memory.antt =====
-- Unsigned numbers in the bytes of a structure, the lowest byte first.
use hwcpipe.Common.{
  arith, ℕ, zero, suc, ◌+◌, ◌*◌, ◌/◌, ◌%◌, ◌^◌, ◌≤◌, ◌<◌, ◌≡◌, ◌≢◌, ◌⊎◌, inl, refl, ap, sym, ◌∙◌,
  List, [], ◌∷◌, get_or, set, length, length-set,
}
use native.Mathlib.Nat.{
  div-add-mod, mul_assoc, mod-lt, pow-suc, one-le-pow, add-mul-mod_self_left, mod-eq_of_lt,
}

-- What is read through a pointer to a number of `n` bytes at an offset.
unfoldable pub load : (n offset : ℕ) → List ℕ → ℕ
load zero offset bytes = 0
load (suc n) offset bytes = get_or bytes offset 0 + 2 ^ 8 * load n (suc offset) bytes

-- What is written through it.
unfoldable pub put : (n offset value : ℕ) → List ℕ → List ℕ
put zero offset value bytes = bytes
put (suc n) offset value bytes =
    put n (suc offset) (value / 2 ^ 8) (set bytes offset (value % 2 ^ 8))

pub length-put : (n o v : ℕ) (bytes : List ℕ) → length (put n o v bytes) ≡ length bytes
unfolding put
length-put zero o v bytes = refl
length-put (suc n) o v bytes =
    length-put n (suc o) (v / 2 ^ 8) (set bytes o (v % 2 ^ 8)) ∙ length-set bytes o (v % 2 ^ 8)

pub get_or-set_self : (bytes : List ℕ) (i v : ℕ) → i < length bytes → get_or (set bytes i v) i 0 ≡ v
get_or-set_self [] i v h = absurd (omega arith)
get_or-set_self (b ∷ bytes) zero v h = refl
get_or-set_self (b ∷ bytes) (suc i) v h = get_or-set_self bytes i v (omega arith)

pub get_or-set_ne :
    (bytes : List ℕ) (i j v : ℕ) → i ≢ j → get_or (set bytes i v) j 0 ≡ get_or bytes j 0
get_or-set_ne [] i j v h = refl
get_or-set_ne (b ∷ bytes) zero zero v h = absurd (h refl)
get_or-set_ne (b ∷ bytes) zero (suc j) v h = refl
get_or-set_ne (b ∷ bytes) (suc i) zero v h = refl
get_or-set_ne (b ∷ bytes) (suc i) (suc j) v h = get_or-set_ne bytes i j v (λ e. h (ap suc e))

-- A write changes nothing outside of its bytes.
abbrev pub Outside : (n o i : ℕ) → Type 0
Outside n o i = (i < o) ⊎ (o + n ≤ i)

get_or-put :
    (n o v i : ℕ) (bytes : List ℕ) → Outside n o i → get_or (put n o v bytes) i 0 ≡ get_or bytes i 0
unfolding put
get_or-put zero o v i bytes h = refl
get_or-put (suc n) o v i bytes h =
    get_or-put n (suc o) (v / 2 ^ 8) i (set bytes o (v % 2 ^ 8)) (ground arith)
    ∙ get_or-set_ne bytes o i (v % 2 ^ 8) (λ e. ground arith)

abbrev pub Apart : (m p n o : ℕ) → Type 0
Apart m p n o = (p + m ≤ o) ⊎ (o + n ≤ p)

-- A number that has no byte in common with what is written keeps its value.
pub load-put-Apart :
    (m p n o v : ℕ) (bytes : List ℕ) → Apart m p n o → load m p (put n o v bytes) ≡ load m p bytes
unfolding load
load-put-Apart zero p n o v bytes h = refl
load-put-Apart (suc m) p n o v bytes h =
    let here = get_or-put n o v p bytes (ground arith) in
    let rest = load-put-Apart m (suc p) n o v bytes (ground arith) in rw (here, rest) refl

split_mod : (v m : ℕ) → 0 < m → v % (2 ^ 8 * m) ≡ v % 2 ^ 8 + 2 ^ 8 * (v / 2 ^ 8 % m)
split_mod v m h =
    let q = v / 2 ^ 8 in
    let x = v % 2 ^ 8 + 2 ^ 8 * (q % m) in
    let parts : v ≡ x + 2 ^ 8 * m * (q / m) =
      omega (arith, div-add-mod q m, mul_assoc (2 ^ 8) m (q / m)) in
    let small : x < 2 ^ 8 * m = omega (arith, mod-lt q h) in
    ap (λ w. w % (2 ^ 8 * m)) parts
    ∙ add-mul-mod_self_left x (2 ^ 8 * m) (q / m)
    ∙ mod-eq_of_lt small

-- A number reads back as it was written, cut to its bytes.
pub load-put :
    (n o v : ℕ) (bytes : List ℕ)
    → o + n ≤ length bytes
    → load n o (put n o v bytes) ≡ v % (2 ^ 8) ^ n
unfolding load put
load-put zero o v bytes h = omega arith
load-put (suc n) o v bytes h =
    let stored = set bytes o (v % 2 ^ 8) in
    let here = get_or-put n (suc o) (v / 2 ^ 8) o stored (inl (omega arith)) in
    let byte = get_or-set_self bytes o (v % 2 ^ 8) (omega arith) in
    let rest =
      load-put n (suc o) (v / 2 ^ 8) stored (omega (arith, length-set bytes o (v % 2 ^ 8))) in
    let power : 2 ^ 8 * (2 ^ 8) ^ n ≡ (2 ^ 8) ^ suc n = omega (arith, pow-suc (2 ^ 8) n) in
    rw (here, byte, rest)
      (sym (split_mod v ((2 ^ 8) ^ n) (one-le-pow n (2 ^ 8) (omega arith))) ∙ ap (λ w. v % w) power)
