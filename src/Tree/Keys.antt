-- ===== src/Tree/Keys.antt =====
-- The order of keys: std::string::compare, by bytes and then by length.
use keyvaluedb.Prelude.{
  ℕ, ◌≡◌, ◌↔◌, refl, Bool, true, false, List, [], ◌∷◌, ◌==◌, ltb, ◌&&◌, ◌||◌, ◌⊎◌, inl, inr, arith,
}

-- key.compare(...) <= 0
unfoldable pub key_le : List ℕ → List ℕ → Bool
key_le [] ys = true
key_le (x ∷ xs) [] = false
key_le (x ∷ xs) (y ∷ ys) = ltb x y || (x == y && key_le xs ys)

-- key.compare(...) == 0
unfoldable pub key_eq : List ℕ → List ℕ → Bool
key_eq [] [] = true
key_eq [] (y ∷ ys) = false
key_eq (x ∷ xs) [] = false
key_eq (x ∷ xs) (y ∷ ys) = x == y && key_eq xs ys

pub key_le_refl : (xs : List ℕ) → key_le xs xs ≡ true
unfolding key_le
key_le_refl [] = refl
key_le_refl (x ∷ xs) = ground (arith, key_le_refl xs)

pub key_le_trans :
    (xs ys zs : List ℕ) → key_le xs ys ≡ true → key_le ys zs ≡ true → key_le xs zs ≡ true
unfolding key_le
key_le_trans [] ys zs p q = refl
key_le_trans (x ∷ xs) [] zs p q = cc
key_le_trans (x ∷ xs) (y ∷ ys) [] p q = cc
key_le_trans (x ∷ xs) (y ∷ ys) (z ∷ zs) p q = ground (arith, key_le_trans xs ys zs)

pub key_le_total : (xs ys : List ℕ) → (key_le xs ys ≡ true) ⊎ (key_le ys xs ≡ true)
unfolding key_le
key_le_total [] ys = inl refl
key_le_total (x ∷ xs) [] = inr refl
key_le_total (x ∷ xs) (y ∷ ys) = ground (arith, key_le_total xs ys)

pub key_le_antisymm : (xs ys : List ℕ) → key_le xs ys ≡ true → key_le ys xs ≡ true → xs ≡ ys
unfolding key_le
key_le_antisymm [] [] p q = refl
key_le_antisymm [] (y ∷ ys) p q = cc
key_le_antisymm (x ∷ xs) [] p q = cc
key_le_antisymm (x ∷ xs) (y ∷ ys) p q = ground (arith, key_le_antisymm xs ys)

pub key_eq_iff : (xs ys : List ℕ) → (key_eq xs ys ≡ true) ↔ (xs ≡ ys)
unfolding key_eq
key_eq_iff [] [] = (λ e. refl, λ e. refl)
key_eq_iff [] (y ∷ ys) = (λ e. cc, λ e. cc)
key_eq_iff (x ∷ xs) [] = (λ e. cc, λ e. cc)
key_eq_iff (x ∷ xs) (y ∷ ys) = ground (arith, key_eq_iff xs ys)

pub key_eq_refl : (xs : List ℕ) → key_eq xs xs ≡ true
key_eq_refl xs = (key_eq_iff xs xs).1 refl
