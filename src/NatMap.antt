-- ===== src/NatMap.antt =====
-- `std::unordered_map` with numbers for keys: pids in src/trace/tracer.cpp, system call numbers in
-- src/parser/parser.h. The program never walks through one, so the order of the entries is not
-- modelled.
use gravelbox.Base.{
  ℕ, ◌≡◌, refl, Bool, true, false, Option, none, some, List, [], ◌∷◌, ◌==◌, if◌then◌else◌, arith,
}

abbrev pub NatMap {ℓ} : Type ℓ → Type ℓ
NatMap V = List (ℕ × V)

module _ {ℓ} {V : Type ℓ} where
  -- m.find(k)
  unfoldable pub find : ℕ → NatMap V → Option V
  find k [] = none
  find k ((j, v) ∷ m) = if j == k then some v else find k m

  -- m[k] = v
  unfoldable pub assign : ℕ → V → NatMap V → NatMap V
  assign k v [] = (k, v) ∷ []
  assign k v ((j, w) ∷ m) = if j == k then (k, v) ∷ m else (j, w) ∷ assign k v m

  -- m.emplace(k, v): a key that is there keeps its value; the second part says whether it was new.
  unfoldable pub emplace : ℕ → V → NatMap V → NatMap V × Bool
  unfolding find assign
  emplace k v m = elim (find k m) [ none ↦ (assign k v m, true) | some _ ↦ (m, false) ]

  -- m.erase(k)
  unfoldable pub erase : ℕ → NatMap V → NatMap V
  erase k [] = []
  erase k ((j, v) ∷ m) = let rest = erase k m in if j == k then rest else (j, v) ∷ rest

  -- m.size() == 0
  unfoldable pub is_empty : NatMap V → Bool
  is_empty [] = true
  is_empty (_ ∷ _) = false

  pub find-assign :
      (k j : ℕ) (v : V) (m : NatMap V)
      → find j (assign k v m) ≡ (if k == j then some v else find j m)
  unfolding find assign
  find-assign k j v [] = refl
  find-assign k j v ((i, w) ∷ m) = ground (arith, find-assign k j v m)

  pub find-erase :
      (k j : ℕ) (m : NatMap V) → find j (erase k m) ≡ (if k == j then none else find j m)
  unfolding find erase
  find-erase k j [] = ground arith
  find-erase k j ((i, w) ∷ m) = ground (arith, find-erase k j m)

  -- The map is empty exactly when it has no key.
  pub is_empty-find : (m : NatMap V) (k : ℕ) → is_empty m ≡ true → find k m ≡ none
  unfolding find is_empty
  is_empty-find [] k h = refl
  is_empty-find (x ∷ m) k h = cc

  pub find-is_empty : (m : NatMap V) (k : ℕ) {v : V} → find k m ≡ some v → is_empty m ≡ false
  unfolding find is_empty
  find-is_empty [] k h = cc
  find-is_empty (x ∷ m) k h = refl

  pub none-is_empty : (m : NatMap V) → ((k : ℕ) → find k m ≡ none) → is_empty m ≡ true
  unfolding find is_empty
  none-is_empty [] h = refl
  none-is_empty ((k, v) ∷ m) h = ground (arith, h k)

pub ruleset map_laws = (find-assign, find-erase)
