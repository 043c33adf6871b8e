-- ===== src/Util/Rc4.antt =====
-- RC4 undoes itself.
use mevent.Common.{
  ℕ, zero, suc, Bool, true, false, Bytes, IsBytes, [], ◌∷◌, ◌+◌, ◌%◌, ◌<◌, ◌≤◌, ◌≡◌, refl, subst,
  ap₂, ◌==◌, ◌&&◌, ◌||◌, leb, ltb, get_or, set, length, Option, some, none, arith, ◌⊎◌, inl, inr,
  Option-cases,
}
use mevent.Common.Bits.{xor_twice}
use mevent.Util.{ascending, swap, mix_key, mix_text, rc4}

set-IsBytes : (s : Bytes) (i v : ℕ) → IsBytes s → v < 256 → IsBytes (set s i v)
set-IsBytes [] i v b h = tt
set-IsBytes (x ∷ s) zero v b h = (h, b.1)
set-IsBytes (x ∷ s) (suc i) v b h = (b.0, set-IsBytes s i v b.1 h)

get_or_lt : (s : Bytes) (i : ℕ) → IsBytes s → get_or s i 0 < 256
get_or_lt [] i b = omega arith
get_or_lt (x ∷ s) zero b = b.0
get_or_lt (x ∷ s) (suc i) b = get_or_lt s i b.1

swap-IsBytes : (s : Bytes) (i j : ℕ) → IsBytes s → IsBytes (swap s i j)
swap-IsBytes s i j b =
    set-IsBytes (set s i (get_or s j 0)) j (get_or s i 0)
      (set-IsBytes s i (get_or s j 0) b (get_or_lt s j b)) (get_or_lt s i b)

-- The bytes that the text is combined with do not depend on the text.
mix_text_twice :
    (buf : Bytes) (x y : ℕ) (s : Bytes)
    → IsBytes buf
    → IsBytes s
    → mix_text (mix_text buf x y s) x y s ≡ buf
unfolding mix_text
mix_text_twice [] x y s b t = refl
mix_text_twice (c ∷ buf) x y s b t =
    let x' = (x + 1) % 256 in
    let y' = (get_or s x' 0 + y) % 256 in
    let s' = swap s x' y' in
    let t' = swap-IsBytes s x' y' t in
    ap₂ ◌∷◌
      (xor_twice c (get_or s' ((get_or s' x' 0 + get_or s' y' 0) % 256) 0) b.0
        (get_or_lt s' ((get_or s' x' 0 + get_or s' y' 0) % 256) t'))
      (mix_text_twice buf x' y' s' b.1 t')

abbrev Filled : Option Bytes → Type 0
Filled none = Unit
Filled (some s) = IsBytes s

mix_key-Filled :
    (left i : ℕ) (key : Bytes) (x y : ℕ) (s : Bytes) → IsBytes s → Filled (mix_key left i key x y s)
unfolding mix_key
mix_key-Filled zero i key x y s b = b
mix_key-Filled (suc left) i key x y s b =
    let sum = get_or key x 0 + get_or s i 0 + y in
    elim ((leb 128 (get_or key x 0) && ltb sum 256) || (length key == 0))
      as (λ (f : Bool). Filled (elim f [
        | true ↦ none
        | false ↦ mix_key left (i + 1) key ((x + 1) % length key) (sum % 256) (swap s i (sum % 256))
      ])) [
        | true ↦ tt
        | false ↦
            mix_key-Filled left (i + 1) key ((x + 1) % length key) (sum % 256)
              (swap s i (sum % 256)) (swap-IsBytes s i (sum % 256) b)
      ]

ascending-IsBytes : (n i : ℕ) → i + n ≤ 256 → IsBytes (ascending n i)
unfolding ascending
ascending-IsBytes zero i h = tt
ascending-IsBytes (suc n) i h = (omega arith, ascending-IsBytes n (i + 1) (omega arith))

-- For every key and every text of bytes: either `RC4` runs into undefined behaviour with this
-- key and text, or it puts a result behind an empty `dest`, and on that result with the same
-- key it gives the text back.
rc4_twice :
    (key src : Bytes)
    → IsBytes src
    → (rc4 key src [] ≡ none)
      ⊎ ((out : Bytes) × (rc4 key src [] ≡ some out) × (rc4 key out [] ≡ some src))
unfolding rc4
rc4_twice key src b = elim (Option-cases (mix_key 256 0 key 0 0 (ascending 256 0))) [
  | inl e ↦ inl (rw (rc4, e) refl)
  | inr (s, e) ↦
      let t =
        subst Filled e (
          mix_key-Filled 256 0 key 0 0 (ascending 256 0) (ascending-IsBytes 256 0 (omega arith))) in
      inr (mix_text src 0 0 s, rw (rc4, e) refl, rw (rc4, e, mix_text_twice src 0 0 s b t) refl)
]
