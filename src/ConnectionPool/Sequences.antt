-- ===== src/ConnectionPool/Sequences.antt =====
-- Lemmas on the sequences that the lists of the pool represent.
use mevent.Common.{
  ℕ, ◌≤◌, ◌<◌, ◌≡◌, ◌≢◌, ap, List, [], ◌∷◌, ◌++◌, arith, All, All-append, ◌⊎◌, inl, inr, Bool-cases,
  ◌==◌, ==_iff,
}
use mevent.ConnectionPool.Segment.{NotIn, Distinct, Distinct-append_cross, Distinct-append_right}

pub mem_cases :
    (c : ℕ) (xs : List ℕ) → NotIn c xs ⊎ ((ys : List ℕ) × (zs : List ℕ) × (xs ≡ ys ++ c ∷ zs))
mem_cases c [] = inl tt
mem_cases c (x ∷ xs) = elim (Bool-cases (x == c)) [
  | inl same ↦ inr ([], xs, ap (λ k. k ∷ xs) ((==_iff x c).0 same))
  | inr other ↦ elim (mem_cases c xs) [
    | inl n ↦ inl (ground (arith, other), n)
    | inr (ys, zs, e) ↦ inr (x ∷ ys, zs, ap (λ t. x ∷ t) e)
  ]
]

pub All-map {κ μ} :
    (P : ℕ → Type κ) (Q : ℕ → Type μ) (xs : List ℕ) → ((x : ℕ) → P x → Q x) → All P xs → All Q xs
All-map P Q [] f a = tt
All-map P Q (x ∷ xs) f a = (f x a.0, All-map P Q xs f a.1)

pub All-both {κ μ ν} :
    (P : ℕ → Type κ) (Q : ℕ → Type μ) (R : ℕ → Type ν) (xs : List ℕ)
    → ((x : ℕ) → P x → Q x → R x)
    → All P xs
    → All Q xs
    → All R xs
All-both P Q R [] f a b = tt
All-both P Q R (x ∷ xs) f a b = (f x a.0 b.0, All-both P Q R xs f a.1 b.1)

pub All-middle {κ} :
    (P : ℕ → Type κ) (ys : List ℕ) (c : ℕ) (zs : List ℕ)
    → All P (ys ++ c ∷ zs)
    → P c × All P (ys ++ zs)
All-middle P [] c zs a = (a.0, a.1)
All-middle P (y ∷ ys) c zs a = let (here, rest) = All-middle P ys c zs a.1 in (here, (a.0, rest))

pub NotIn-ne : (x : ℕ) (ys : List ℕ) (c : ℕ) (zs : List ℕ) → NotIn x (ys ++ c ∷ zs) → c ≢ x
NotIn-ne x ys c zs n = (All-middle (λ y. y ≢ x) ys c zs n).0

pub Distinct-NotIn :
    (ys : List ℕ) (c : ℕ) (zs : List ℕ) → Distinct (ys ++ c ∷ zs) → NotIn c (ys ++ zs)
Distinct-NotIn ys c zs d =
    All-append (λ x. x ≢ c) ys zs (Distinct-append_cross ys (c ∷ zs) d).0
      (Distinct-append_right ys (c ∷ zs) d).0

pub recount : (m n : ℕ) (xs : List ℕ) → m ≤ n → All (λ c. c < m) xs → All (λ c. c < n) xs
recount m n xs le a = All-map (λ c. c < m) (λ c. c < n) xs (λ c h. omega arith) a

pub NotIn-small : (n : ℕ) (xs : List ℕ) → All (λ c. c < n) xs → NotIn n xs
NotIn-small n xs a = All-map (λ c. c < n) (λ c. c ≢ n) xs (λ c h e. omega arith) a
