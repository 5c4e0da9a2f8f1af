-- ===== src/DfbState/Window.antt =====
-- Runs of slots of a ring, going round at its capacity.
use tt_lang.Prelude.{
  ℕ, zero, suc, ◌+◌, ◌%◌, ◌≤◌, ◌<◌, ◌≡◌, ◌≢◌, refl, ap, ap₂, sym, ◌∙◌, List, [], ◌∷◌, ◌++◌, ◌⊎◌,
  inl, inr, Option, none, some, get_elem?, set, length, arith, get_elem?-set_ne, get_elem?-set_self,
}
use native.Mathlib.Nat.{div-add-mod, suc-mod, mod-lt}
use tt_lang.Block.Slots.{Slots}

-- Two positions less than `cap` apart stand for different slots.
pub mod_ne : (cap a b : ℕ) → a < b → b < a + cap → a % cap ≢ b % cap
mod_ne cap a b h k e = grind (arith, div-add-mod a cap, div-add-mod b cap)

-- Position `q` lies before or after the `n` positions from `p` on, by less than a round.
abbrev pub Apart : ℕ → ℕ → ℕ → ℕ → Type 0
Apart cap q p n = ((q < p) × (p + n ≤ q + cap)) ⊎ ((p + n ≤ q) × (q < p + cap))

pub mod_ne_of_Apart : (cap q p n : ℕ) → Apart cap q p (suc n) → q % cap ≢ p % cap
mod_ne_of_Apart cap q p n (inl h) = mod_ne cap q p h.0 (omega arith)
mod_ne_of_Apart cap q p n (inr h) = λ e. mod_ne cap p q (omega arith) h.1 (sym e)

pub Apart-suc : (cap q p n : ℕ) → Apart cap q p (suc n) → Apart cap q (suc p) n
Apart-suc cap q p n (inl h) = inl (omega arith)
Apart-suc cap q p n (inr h) = inr (omega arith)

module _ {A : Type 0} where
  -- The slot at a position; a slot past the end of the list holds nothing.
  abbrev pub slot_at : Slots A → ℕ → Option A
  slot_at buf i = elim (get_elem? buf i) [ none ↦ none | some v ↦ v ]

  -- The `n` slots from position `p` on.
  abbrev pub window : Slots A → ℕ → ℕ → ℕ → List (Option A)
  window buf cap p zero = []
  window buf cap p (suc n) = slot_at buf (p % cap) ∷ window buf cap (suc p) n

  pub length-window : (buf : Slots A) (cap p n : ℕ) → length (window buf cap p n) ≡ n
  length-window buf cap p zero = refl
  length-window buf cap p (suc n) = ap suc (length-window buf cap (suc p) n)

  pub window-add :
      (buf : Slots A) (cap p m n : ℕ)
      → window buf cap p (m + n) ≡ window buf cap p m ++ window buf cap (p + m) n
  window-add buf cap p zero n =
      let e₁ : 0 + n ≡ n = omega arith in let e₂ : p + 0 ≡ p = omega arith in rw (e₁, e₂)
  window-add buf cap p (suc m) n =
      let e₁ : suc m + n ≡ suc (m + n) = omega arith in
      let e₂ : p + suc m ≡ suc p + m = omega arith in rw (e₁, e₂, window-add buf cap (suc p) m n)

  -- Only the position modulo the capacity matters.
  pub window_of_mod :
      (buf : Slots A) (cap p q n : ℕ) → p % cap ≡ q % cap → window buf cap p n ≡ window buf cap q n
  window_of_mod buf cap p q zero e = refl
  window_of_mod buf cap p q (suc n) e =
      ap₂ (λ k r. slot_at buf k ∷ r) e (window_of_mod buf cap (suc p) (suc q) n suc_eq)
    where
      suc_eq : suc p % cap ≡ suc q % cap
      suc_eq = suc-mod p cap ∙ ap (λ k. suc k % cap) e ∙ sym (suc-mod q cap)

  -- A write outside a window leaves the window alone.
  pub window-set_out :
      (buf : Slots A) (cap q p n : ℕ) (v : Option A)
      → Apart cap q p n
      → window (set buf (q % cap) v) cap p n ≡ window buf cap p n
  window-set_out buf cap q p zero v h = refl
  window-set_out buf cap q p (suc n) v h =
      ap₂ ◌∷◌
        (ap (λ o. elim o [ none ↦ none | some w ↦ w ])
          (get_elem?-set_ne buf (q % cap) (p % cap) v (mod_ne_of_Apart cap q p n h)))
        (window-set_out buf cap q (suc p) n v (Apart-suc cap q p n h))

  pub slot_at-set :
      (buf : Slots A) (k : ℕ) (v : Option A) → k < length buf → slot_at (set buf k v) k ≡ v
  slot_at-set buf k v h =
      ap (λ o. elim o [ none ↦ none | some w ↦ w ]) (get_elem?-set_self buf k v h)

  -- A write inside a window is a write at that place of the window.
  pub window-set_in :
      (buf : Slots A) (cap p i n : ℕ) (v : Option A)
      → i < n
      → n ≤ cap
      → length buf ≡ cap
      → window (set buf ((p + i) % cap) v) cap p n ≡ set (window buf cap p n) i v
  window-set_in buf cap p i zero v h l e = elim h [ ]
  window-set_in buf cap p zero (suc n) v h l e =
      let here : p + 0 ≡ p = omega arith in
      ap (λ q. window (set buf (q % cap) v) cap p (suc n)) here
      ∙ ap₂ ◌∷◌ (slot_at-set buf (p % cap) v (rw e (mod-lt p (omega arith))))
          (window-set_out buf cap p (suc p) n v (inl (omega arith)))
  window-set_in buf cap p (suc i) (suc n) v h l e =
      let next : p + suc i ≡ suc p + i = omega arith in
      ap (λ q. window (set buf (q % cap) v) cap p (suc n)) next
      ∙ ap₂ ◌∷◌
          (ap (λ o. elim o [ none ↦ none | some w ↦ w ])
            (get_elem?-set_ne buf ((suc p + i) % cap) (p % cap) v
              (λ q. mod_ne cap p (suc p + i) (omega arith) (omega arith) (sym q))))
          (window-set_in buf cap (suc p) i n v (omega arith) (omega arith) e)

  pub get_elem?-window :
      (buf : Slots A) (cap p i n : ℕ)
      → i < n
      → get_elem? (window buf cap p n) i ≡ some (slot_at buf ((p + i) % cap))
  get_elem?-window buf cap p i zero h = elim h [ ]
  get_elem?-window buf cap p zero (suc n) h = ap (λ q. some (slot_at buf (q % cap))) (omega arith)
  get_elem?-window buf cap p (suc i) (suc n) h =
      get_elem?-window buf cap (suc p) i n (omega arith)
      ∙ ap (λ q. some (slot_at buf (q % cap))) (omega arith)
