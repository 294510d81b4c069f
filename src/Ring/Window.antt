-- ===== src/Ring/Window.antt =====
-- The items of a ring: the slots from index `h` on, `n` of them, going round at the capacity.
use native.Mathlib.Nat.{mod-add-mod, mod-lt, mod-eq_of_lt, mod-eq-sub-mod, add-zero}
use native.Mathlib.Decide.{dec_lt}
use aether_plane.Base.{
  ℕ, zero, suc, ◌+◌, ◌-◌, ◌%◌, ◌<◌, ◌≡◌, ◌≢◌, refl, ap, ap₂, ◌∙◌, sym, List, [], ◌∷◌, ◌++◌, arith,
  length, get_or, set, get_or-set_self, get_or-set_ne,
}

-- Fewer than `m` steps do not come back to the same remainder.
pub steps-mod-ne : (m h d : ℕ) → suc d < m → h % m ≢ (h + suc d) % m
steps-mod-ne m h d lt e =
    let r = h % m in
    let in_range : r < m = mod-lt h (omega arith) in
    let whole : (r + suc d) % m ≡ r = mod-add-mod h m (suc d) ∙ sym e in
    elim (dec_lt (r + suc d) m) [
      | yes p ↦ omega (arith, mod-eq_of_lt p, whole)
      | no p ↦ omega (
        arith,
        whole,
        mod-eq-sub-mod {n = r + suc d} {m = m} (omega arith),
        mod-eq_of_lt {n = r + suc d - m} {m = m} (omega arith),
      )
    ]

module _ {ℓ} {A : Type ℓ} (blank : A) (capacity : ℕ) where
  abbrev pub window : List A → ℕ → ℕ → List A
  window buffer h zero = []
  window buffer h (suc n) = get_or buffer (h % capacity) blank ∷ window buffer (h + 1) n

  pub length-window : (buffer : List A) (h n : ℕ) → length (window buffer h n) ≡ n
  length-window buffer h zero = refl
  length-window buffer h (suc n) = ap suc (length-window buffer (h + 1) n)

  -- Only the remainder of the first index counts.
  pub window_cong :
      (buffer : List A) (h h' n : ℕ)
      → h % capacity ≡ h' % capacity
      → window buffer h n ≡ window buffer h' n
  window_cong buffer h h' zero e = refl
  window_cong buffer h h' (suc n) e =
      ap₂ ◌∷◌ (ap (λ i. get_or buffer i blank) e) (window_cong buffer (h + 1) (h' + 1) n next)
    where
      next : (h + 1) % capacity ≡ (h' + 1) % capacity
      next =
          sym (mod-add-mod h capacity 1)
          ∙ ap (λ r. (r + 1) % capacity) e
          ∙ mod-add-mod h' capacity 1

  -- Writing just past a window that does not fill the ring extends it by the new item.
  pub window-set :
      (buffer : List A) (item : A) (h n i : ℕ)
      → length buffer ≡ capacity
      → n < capacity
      → i ≡ (h + n) % capacity
      → window (set buffer i item) h (suc n) ≡ window buffer h n ++ (item ∷ [])
  window-set buffer item h zero i len lt e =
      rw (e, add-zero)
        (ap (λ a. a ∷ [])
          (get_or-set_self buffer (h % capacity) item blank (omega (arith, mod-lt h lt))))
  window-set buffer item h (suc n) i len lt e =
      ap₂ ◌∷◌
        (get_or-set_ne buffer i (h % capacity) item blank
          (λ same. steps-mod-ne capacity h n lt (sym same ∙ e)))
        (window-set buffer item (h + 1) n i len (omega arith)
          (e ∙ ap (λ j. j % capacity) (omega arith)))

  -- A write past the window leaves it.
  pub window-set_past :
      (buffer : List A) (item : A) (h n d i : ℕ)
      → n + d < capacity
      → i ≡ (h + (n + d)) % capacity
      → window (set buffer i item) h n ≡ window buffer h n
  window-set_past buffer item h zero d i lt e = refl
  window-set_past buffer item h (suc n) d i lt e =
      ap₂ ◌∷◌
        (get_or-set_ne buffer i (h % capacity) item blank (λ same.
          steps-mod-ne capacity h (n + d) (omega arith)
            (sym same ∙ e ∙ ap (λ j. j % capacity) (omega arith))))
        (window-set_past buffer item (h + 1) n d i (omega arith)
          (e ∙ ap (λ j. j % capacity) (omega arith)))

  -- A window with the slot behind it.
  pub window_of_suc :
      (buffer : List A) (h n : ℕ)
      → window buffer h (suc n)
        ≡ window buffer h n ++ (get_or buffer ((h + n) % capacity) blank ∷ [])
  window_of_suc buffer h zero = ap (λ j. get_or buffer (j % capacity) blank ∷ []) (omega arith)
  window_of_suc buffer h (suc n) =
      ap (λ w. get_or buffer (h % capacity) blank ∷ w)
        (window_of_suc buffer (h + 1) n
          ∙ ap (λ j. window buffer (h + 1) n ++ (get_or buffer (j % capacity) blank ∷ []))
              (omega arith))

  -- Taking the first item of a window.
  pub window_of_pos :
      (buffer : List A) (h n : ℕ)
      → 0 < n
      → window buffer h n ≡ get_or buffer (h % capacity) blank ∷ window buffer (h + 1) (n - 1)
  window_of_pos buffer h zero pos = elim pos [ ]
  window_of_pos buffer h (suc n) pos = ap (λ k. window buffer h (suc k)) (omega arith)
