-- ===== src/HttpHandler/Routing.antt =====
-- The handler of a request path, against the list of registrations.
use mevent.Common.{
  ℕ, ◌<◌, ◌≡◌, refl, sym, ap, ◌∙◌, Bool, true, false, List, [], ◌∷◌, Option, some, none, Bytes,
  if◌then◌else◌, arith, Bool-cases, inl, inr, IsBytes, All,
}
use mevent.TernarySearchTree.{NodeData, Node, leaf, or_else, keep_data}
use mevent.TernarySearchTree.Lookup.{
  same, longest, entry, entry_at, IsTree, insert-IsTree, entry-insert, search_one-longest,
}
use mevent.HttpHandler.{c_string, set_handle_func, found_func, get_handle_func}

-- A path with no NUL, as every path of a parsed request is.
abbrev pub IsPath : Bytes → Type 0
IsPath = All λ b. (0 < b) × (b < 256)

IsPath-IsBytes : (p : Bytes) → IsPath p → IsBytes p
IsPath-IsBytes [] h = tt
IsPath-IsBytes (c ∷ p) h = (h.0.1, IsPath-IsBytes p h.1)

c_string_lem : (p : Bytes) → IsPath p → c_string p ≡ p
unfolding c_string
c_string_lem [] h = refl
c_string_lem (c ∷ p) h = ground (arith, c_string_lem p h.1)

same-eq : (p q : Bytes) → same p q ≡ true → p ≡ q
same-eq [] [] h = refl
same-eq [] (y ∷ q) h = cc
same-eq (x ∷ p) [] h = cc
same-eq (x ∷ p) (y ∷ q) h = ground (arith, same-eq p q)

or_else-none {ℓ} : {A : Type ℓ} (o : Option A) → or_else o none ≡ o
or_else-none none = refl
or_else-none (some a) = refl

or_else-if {ℓ} :
    {A : Type ℓ} (b : Bool) (a : A) (o : Option A)
    → or_else (if b then some a else none) o ≡ (if b then some a else o)
or_else-if true a o = refl
or_else-if false a o = refl

module _ {F : Type 0} where
  -- `SetHandleFunc` for each registration, in order.
  pub registered : Node F → List (Bytes × F) → Node F
  registered t [] = t
  registered t ((path, func) ∷ rs) = registered (set_handle_func t path func) rs

  -- The first registration of a path counts.
  abbrev pub first_match : List (Bytes × F) → Bytes → Option F
  first_match [] p = none
  first_match ((path, func) ∷ rs) p = if same path p then some func else first_match rs p

  abbrev pub ArePaths : List (Bytes × F) → Type 0
  ArePaths [] = Unit
  ArePaths ((path, func) ∷ rs) = IsPath path × ArePaths rs

  set-IsTree :
      (t : Node F) (p : Bytes) (f : F) → IsPath p → IsTree t → IsTree (set_handle_func t p f)
  unfolding set_handle_func
  set-IsTree t [] f h v = v
  set-IsTree t (c ∷ p) f h v =
      rw (c_string_lem p h.1) (insert-IsTree t c p _ (IsPath-IsBytes (c ∷ p) h) v)

  or_else_assoc : (a b d : Option F) → or_else (or_else a b) d ≡ or_else a (or_else b d)
  or_else_assoc none b d = refl
  or_else_assoc (some a) b d = refl

  found_func-keep_data :
      (e : Option (NodeData F)) (d : NodeData F)
      → found_func (keep_data e d) ≡ or_else (found_func e) (some d.func)
  unfolding found_func
  found_func-keep_data none d = refl
  found_func-keep_data (some e) d = refl

  entry-set :
      (t : Node F) (p : Bytes) (f : F) (x : ℕ) (xs : Bytes)
      → IsPath p
      → IsPath (x ∷ xs)
      → IsTree t
      → found_func (entry (set_handle_func t p f) x xs)
        ≡ or_else (found_func (entry t x xs)) (if same p (x ∷ xs) then some f else none)
  unfolding set_handle_func
  entry-set t [] f x xs h i v = sym (or_else-none (found_func (entry t x xs)))
  entry-set t (c ∷ p) f x xs h i v =
      let d : NodeData F = record { str = c ∷ p; func = f } in
      let added =
        entry-insert t c p d x xs (IsPath-IsBytes (c ∷ p) h) (IsPath-IsBytes (x ∷ xs) i) v in
      rw (c_string_lem p h.1, added)
        (elim (Bool-cases (same (c ∷ p) (x ∷ xs))) [
          | inl hit ↦ rw hit (
              found_func-keep_data (entry t c p) d
              ∙ ap (λ (q : Bytes). or_else (found_func (entry_at t q)) (some f))
                  (same-eq (c ∷ p) (x ∷ xs) hit))
          | inr miss ↦ rw miss (sym (or_else-none (found_func (entry t x xs))))
        ])

  entry-registered :
      (t : Node F) (rs : List (Bytes × F)) (x : ℕ) (xs : Bytes)
      → ArePaths rs
      → IsPath (x ∷ xs)
      → IsTree t
      → found_func (entry (registered t rs) x xs)
        ≡ or_else (found_func (entry t x xs)) (first_match rs (x ∷ xs))
  unfolding registered
  entry-registered t [] x xs h i v = sym (or_else-none (found_func (entry t x xs)))
  entry-registered t ((p, f) ∷ rs) x xs h i v =
      entry-registered (set_handle_func t p f) rs x xs h.1 i (set-IsTree t p f h.0 v)
      ∙ ap (λ (o : Option F). or_else o (first_match rs (x ∷ xs))) (entry-set t p f x xs h.0 i v)
      ∙ or_else_assoc (found_func (entry t x xs)) _ (first_match rs (x ∷ xs))
      ∙ ap (or_else (found_func (entry t x xs)))
          (or_else-if (same p (x ∷ xs)) f (first_match rs (x ∷ xs)))

  found_func-or_else :
      (a b : Option (NodeData F)) → found_func (or_else a b) ≡ or_else (found_func a) (found_func b)
  unfolding found_func
  found_func-or_else none b = refl
  found_func-or_else (some a) b = refl

  found_func-longest :
      (at : Bytes → Option (NodeData F)) (cs : Bytes) (found : Option (NodeData F))
      → found_func (longest at cs found) ≡ longest (λ p. found_func (at p)) cs (found_func found)
  found_func-longest at [] found = refl
  found_func-longest at (c ∷ cs) found =
      found_func-longest (λ p. at (c ∷ p)) cs (or_else (at (c ∷ [])) found)
      ∙ ap (longest (λ p. found_func (at (c ∷ p))) cs) (found_func-or_else (at (c ∷ [])) found)

  -- Two tables that agree on every prefix that is a path.
  longest-paths :
      (f g : Bytes → Option F) (cs : Bytes) (found : Option F)
      → IsPath cs
      → ((c : ℕ) (p : Bytes) → IsPath (c ∷ p) → f (c ∷ p) ≡ g (c ∷ p))
      → longest f cs found ≡ longest g cs found
  longest-paths f g [] found h same_at = refl
  longest-paths f g (c ∷ cs) found h same_at =
      ap (λ (o : Option F). longest (λ p. f (c ∷ p)) cs (or_else o found)) (same_at c [] (h.0, tt))
      ∙ longest-paths (λ p. f (c ∷ p)) (λ p. g (c ∷ p)) cs _ h.1
          (λ c' p i. same_at c (c' ∷ p) (h.0, i))

  -- After any registrations, the handler of a path is that of the longest registered prefix of it,
  -- the first registration of that prefix counting.
  pub get_handle_func-registered :
      (rs : List (Bytes × F)) (path : Bytes)
      → ArePaths rs
      → IsPath path
      → get_handle_func (registered leaf rs) path ≡ longest (first_match rs) path none
  unfolding get_handle_func
  get_handle_func-registered rs [] h i = refl
  get_handle_func-registered rs (c ∷ cs) h i =
      let t = registered leaf rs in
      rw (c_string_lem cs i.1, search_one-longest t c cs)
        (found_func-longest (entry_at t) (c ∷ cs) none
          ∙ longest-paths (λ p. found_func (entry_at t p)) (first_match rs) (c ∷ cs) none i
              (λ x xs j. entry-registered leaf rs x xs h j tt ∙ unfold entry in refl))
