-- ===== src/Examples/ChatRoom/Clients.antt =====
-- The sets of clients of examples/chat_room.cpp.
use mevent.Common.{
  ℕ, suc, ◌≤◌, ◌<◌, ◌≡◌, refl, sym, subst, ==_iff, Bool-cases, inl, inr, Bool, true, false, not,
  ◌&&◌, ◌||◌, Bytes, List, [], ◌∷◌, ◌==◌, arith,
}
use mevent.Request.{same_bytes}
use mevent.Examples.ChatRoom.{set_insert, set_erase}

abbrev pub member : ℕ → List ℕ → Bool
member v [] = false
member v (x ∷ clients) = v == x || member v clients

-- The elements are in their order, from `low` on.
abbrev pub Above : ℕ → List ℕ → Type 0
Above low [] = Unit
Above low (x ∷ clients) = (low ≤ x) × Above (suc x) clients

pub member-Above :
    (clients : List ℕ) (low v : ℕ) → v < low → Above low clients → member v clients ≡ false
member-Above [] low v lt h = refl
member-Above (x ∷ clients) low v lt h =
    ground (arith, member-Above clients (suc x) v (ground arith) h.1)

pub member-set_insert :
    (ws v : ℕ) (clients : List ℕ) → member v (set_insert ws clients) ≡ (v == ws || member v clients)
unfolding set_insert
member-set_insert ws v [] = refl
member-set_insert ws v (x ∷ clients) = ground (arith, member-set_insert ws v clients)

pub set_insert-Above :
    (ws low : ℕ) (clients : List ℕ)
    → low ≤ ws
    → Above low clients
    → Above low (set_insert ws clients)
unfolding set_insert
set_insert-Above ws low [] le h = (le, tt)
set_insert-Above ws low (x ∷ clients) le h = ground (arith, set_insert-Above ws (suc x) clients)

pub member-set_erase :
    (ws v low : ℕ) (clients : List ℕ)
    → Above low clients
    → member v (set_erase ws clients) ≡ (not (v == ws) && member v clients)
unfolding set_erase
member-set_erase ws v low [] h = ground arith
member-set_erase ws v low (x ∷ clients) h = ground (
  arith,
  member-set_erase ws v (suc x) clients h.1,
  member-Above clients (suc x) x (omega arith) h.1,
)

pub Above-weaken :
    (low lower : ℕ) (clients : List ℕ) → lower ≤ low → Above low clients → Above lower clients
Above-weaken low lower [] le h = tt
Above-weaken low lower (x ∷ clients) le h = (omega (arith, h.0), h.1)

pub set_erase-Above :
    (ws low : ℕ) (clients : List ℕ) → Above low clients → Above low (set_erase ws clients)
unfolding set_erase
set_erase-Above ws low [] h = tt
set_erase-Above ws low (x ∷ clients) h =
    ground (arith, set_erase-Above ws (suc x) clients h.1, Above-weaken (suc x) low clients)

pub same_bytes_refl : (s : Bytes) → same_bytes s s ≡ true
unfolding same_bytes
same_bytes_refl [] = refl
same_bytes_refl (x ∷ xs) = ground (arith, same_bytes_refl xs)

pub same_bytes→≡ : (a b : Bytes) → same_bytes a b ≡ true → a ≡ b
unfolding same_bytes
same_bytes→≡ [] [] h = refl
same_bytes→≡ [] (y ∷ ys) h = ground arith
same_bytes→≡ (x ∷ xs) [] h = ground arith
same_bytes→≡ (x ∷ xs) (y ∷ ys) h = ground (arith, same_bytes→≡ xs ys)

-- To split on whether a websocket is this one.
pub at_websocket :
    (ws v : ℕ) (P : ℕ → Bool → Bool → Type 0)
    → P ws true true
    → ((ws == v) ≡ false → P v false false)
    → P v (ws == v) (v == ws)
at_websocket ws v P here there = elim (Bool-cases (ws == v)) [
  | inl eq ↦
      let same = (==_iff ws v).0 eq in
      rw (eq, (==_iff v ws).1 (sym same)) (subst (λ w. P w true true) same here)
  | inr other ↦ let back : (v == ws) ≡ false = ground arith in rw (other, back) (there other)
]
