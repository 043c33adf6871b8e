-- ===== src/ConnectionPool/Segment.antt =====
-- Doubly linked segments on the link maps, and lists without repetition.
use mevent.Common.{ℕ, ◌≡◌, ◌≢◌, refl, sym, List, [], ◌∷◌, ◌++◌, some, arith, All, All-append}
use mevent.ConnectionPool.{Pointer, Links, update}

abbrev pub NotIn : ℕ → List ℕ → Type 0
NotIn c = All λ x. x ≢ c

abbrev pub Distinct : List ℕ → Type 0
Distinct [] = Unit
Distinct (x ∷ xs) = NotIn x xs × Distinct xs

pub NotIn-append_left : (c : ℕ) (xs ys : List ℕ) → NotIn c (xs ++ ys) → NotIn c xs
NotIn-append_left c [] ys h = tt
NotIn-append_left c (x ∷ xs) ys h = (h.0, NotIn-append_left c xs ys h.1)

pub NotIn-append_right : (c : ℕ) (xs ys : List ℕ) → NotIn c (xs ++ ys) → NotIn c ys
NotIn-append_right c [] ys h = h
NotIn-append_right c (x ∷ xs) ys h = NotIn-append_right c xs ys h.1

-- Each element of the second part stands nowhere in the first.
pub Distinct-append_cross : (xs ys : List ℕ) → Distinct (xs ++ ys) → All (λ y. NotIn y xs) ys
Distinct-append_cross [] ys d = everywhere ys
  where
    everywhere : (ys : List ℕ) → All (λ y. NotIn y []) ys
    everywhere [] = tt
    everywhere (y ∷ ys) = (tt, everywhere ys)
Distinct-append_cross (x ∷ xs) ys d =
    both ys (NotIn-append_right x xs ys d.0) (Distinct-append_cross xs ys d.1)
  where
    both : (ys : List ℕ) → NotIn x ys → All (λ y. NotIn y xs) ys → All (λ y. NotIn y (x ∷ xs)) ys
    both [] a b = tt
    both (y ∷ ys) a b = ((λ e. a.0 (sym e), b.0), both ys a.1 b.1)

pub NotIn-of_cross :
    (ys : List ℕ) (q : ℕ) (zs : List ℕ) → All (λ y. NotIn y (ys ++ q ∷ [])) zs → NotIn q zs
NotIn-of_cross ys q [] h = tt
NotIn-of_cross ys q (z ∷ zs) h =
    (λ e. (NotIn-append_right z ys (q ∷ []) h.0).0 (sym e), NotIn-of_cross ys q zs h.1)

pub Distinct-append_right : (xs ys : List ℕ) → Distinct (xs ++ ys) → Distinct ys
Distinct-append_right [] ys d = d
Distinct-append_right (x ∷ xs) ys d = Distinct-append_right xs ys d.1

pub Distinct-append_left : (xs ys : List ℕ) → Distinct (xs ++ ys) → Distinct xs
Distinct-append_left [] ys d = tt
Distinct-append_left (x ∷ xs) ys d = (NotIn-append_left x xs ys d.0, Distinct-append_left xs ys d.1)

pub Distinct-snoc : (xs : List ℕ) (c : ℕ) → Distinct xs → NotIn c xs → Distinct (xs ++ c ∷ [])
Distinct-snoc [] c d h = (tt, tt)
Distinct-snoc (x ∷ xs) c d h =
    (All-append (λ y. y ≢ x) xs (c ∷ []) d.0 (λ e. h.0 (sym e), tt), Distinct-snoc xs c d.1 h.1)

pub NotIn-middle :
    (x : ℕ) (ys : List ℕ) (c : ℕ) (zs : List ℕ) → NotIn x (ys ++ c ∷ zs) → NotIn x (ys ++ zs)
NotIn-middle x [] c zs h = h.1
NotIn-middle x (y ∷ ys) c zs h = (h.0, NotIn-middle x ys c zs h.1)

pub NotIn-insert :
    (x : ℕ) (ys : List ℕ) (c : ℕ) (zs : List ℕ)
    → c ≢ x
    → NotIn x (ys ++ zs)
    → NotIn x (ys ++ c ∷ zs)
NotIn-insert x [] c zs ne h = (ne, h)
NotIn-insert x (y ∷ ys) c zs ne h = (h.0, NotIn-insert x ys c zs ne h.1)

pub Distinct-middle :
    (ys : List ℕ) (c : ℕ) (zs : List ℕ) → Distinct (ys ++ c ∷ zs) → Distinct (ys ++ zs)
Distinct-middle [] c zs d = d.1
Distinct-middle (y ∷ ys) c zs d = (NotIn-middle y ys c zs d.0, Distinct-middle ys c zs d.1)

-- From `head` to `tail` through `xs`; `before` and `after` are what the ends point to.
abbrev pub Segment : Links → Links → Pointer → Pointer → List ℕ → Pointer → Pointer → Type 0
Segment next prev before head [] tail after = (head ≡ after) × (tail ≡ before)
Segment next prev before head (x ∷ xs) tail after =
    (head ≡ some x) × (prev x ≡ before) × Segment next prev (some x) (next x) xs tail after

module _ (next prev : Links) (c : ℕ) (v : Pointer) where
  pub frame_next :
      (b h : Pointer) (xs : List ℕ) (t a : Pointer)
      → NotIn c xs
      → Segment next prev b h xs t a
      → Segment (update next c v) prev b h xs t a
  frame_next b h [] t a n s = s
  frame_next b h (x ∷ xs) t a n s =
      (s.0, s.1, ground (arith, frame_next (some x) (next x) xs t a n.1 s.2))

  pub frame_prev :
      (b h : Pointer) (xs : List ℕ) (t a : Pointer)
      → NotIn c xs
      → Segment next prev b h xs t a
      → Segment next (update prev c v) b h xs t a
  frame_prev b h [] t a n s = s
  frame_prev b h (x ∷ xs) t a n s = (s.0, ground arith, frame_prev (some x) (next x) xs t a n.1 s.2)

module _ (next prev : Links) where
  -- The last element is made to point elsewhere.
  pub redirect_end :
      (b h : Pointer) (xs : List ℕ) (q : ℕ) (t a v : Pointer)
      → NotIn q xs
      → Segment next prev b h (xs ++ q ∷ []) t a
      → Segment (update next q v) prev b h (xs ++ q ∷ []) t v
  redirect_end b h [] q t a v n s = (s.0, s.1, (ground arith, s.2.1))
  redirect_end b h (x ∷ xs) q t a v n s =
      (s.0, s.1, ground (arith, redirect_end (some x) (next x) xs q t a v n.1 s.2))

  -- The first element is made to point back elsewhere.
  pub redirect_start :
      (b : Pointer) (x : ℕ) (xs : List ℕ) (t a v : Pointer)
      → NotIn x xs
      → Segment next prev b (some x) (x ∷ xs) t a
      → Segment next (update prev x v) v (some x) (x ∷ xs) t a
  redirect_start b x xs t a v n s =
      (refl, ground arith, frame_prev next prev x v (some x) (next x) xs t a n s.2)

  pub Segment-split :
      (b h : Pointer) (xs ys : List ℕ) (t a : Pointer)
      → Segment next prev b h (xs ++ ys) t a
      → (h' : Pointer) × (t' : Pointer) × Segment next prev b h xs t' h'
        × Segment next prev t' h' ys t a
  Segment-split b h [] ys t a s = (h, b, (refl, refl), s)
  Segment-split b h (x ∷ xs) ys t a s =
      let (h', t', l, r) = Segment-split (some x) (next x) xs ys t a s.2 in
      (h', t', (s.0, s.1, l), r)

  pub Segment-append :
      (b h : Pointer) (xs ys : List ℕ) (t' h' t a : Pointer)
      → Segment next prev b h xs t' h'
      → Segment next prev t' h' ys t a
      → Segment next prev b h (xs ++ ys) t a
  Segment-append b h [] ys t' h' t a l r = rw (l.0, ← l.1) r
  Segment-append b h (x ∷ xs) ys t' h' t a l r =
      (l.0, l.1, Segment-append (some x) (next x) xs ys t' h' t a l.2 r)

  pub Segment-last :
      (b h : Pointer) (xs : List ℕ) (q : ℕ) (t a : Pointer)
      → Segment next prev b h (xs ++ q ∷ []) t a
      → (t ≡ some q) × (next q ≡ a)
  Segment-last b h [] q t a s = (s.2.1, s.2.0)
  Segment-last b h (x ∷ xs) q t a s = Segment-last (some x) (next x) xs q t a s.2

-- What the ends of a segment point to is in the list.
module _ (next prev : Links) (P : ℕ → Type 0) where
  pub Segment-head :
      (b h : Pointer) (xs : List ℕ) (q : ℕ) (t a : Pointer)
      → All P (xs ++ q ∷ [])
      → Segment next prev b h (xs ++ q ∷ []) t a
      → (f : ℕ) × (h ≡ some f) × P f
  Segment-head b h [] q t a all s = (q, s.0, all.0)
  Segment-head b h (x ∷ xs) q t a all s = (x, s.0, all.0)

  pub Segment-tail :
      (b h : Pointer) (x : ℕ) (xs : List ℕ) (t a : Pointer)
      → All P (x ∷ xs)
      → Segment next prev b h (x ∷ xs) t a
      → (w : ℕ) × (t ≡ some w) × P w
  Segment-tail b h x [] t a all s = (x, s.2.1, all.0)
  Segment-tail b h x (y ∷ ys) t a all s = Segment-tail (some x) (next x) y ys t a all.1 s.2

-- A list is empty or has a last element.
pub data Ending : List ℕ → Type 0 where
  nothing : Ending []
  last : (xs : List ℕ) (q : ℕ) → Ending (xs ++ q ∷ [])

pub ending : (xs : List ℕ) → Ending xs
ending [] = nothing
ending (x ∷ xs) = before (ending xs)
  where
    before : {ys : List ℕ} → Ending ys → Ending (x ∷ ys)
    before nothing = last [] x
    before (last ys q) = last (x ∷ ys) q
