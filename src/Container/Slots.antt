-- ===== src/Container/Slots.antt =====
-- An array of element slots that is used as a ring, as ct_queue lays out its elements.
use coter.Base.{
  ℕ, suc, ◌+◌, ◌*◌, ◌≤◌, ◌<◌, ◌≡◌, ◌≢◌, ap, ap₂, ◌∙◌, List, [], ◌∷◌, ◌++◌, arith, length, Bytes,
  slot, set_slot, slot-set_slot_self, slot-set_slot_ne, wrap, tabulate, tabulate_ext, tabulate-add,
}

module _ (w : ℕ) (b : Bytes) (cap : ℕ) where
  -- the `n` slots from slot `h` on, going round at `cap`
  abbrev pub ring : ℕ → ℕ → List Bytes
  ring h n = tabulate n (λ i. slot w b (wrap cap (h + i)))

  -- A ring begins with its first slot.
  pub ring-suc :
      (h n : ℕ) → h < cap → n < cap → ring h (suc n) ≡ slot w b h ∷ ring (wrap cap (h + 1)) n
  ring-suc h n hh hn =
      ap₂ ◌∷◌ (ap (slot w b) (ground arith))
        (tabulate_ext n _ _ λ i p. ap (slot w b) (ground arith))

module _ (w : ℕ) (b : Bytes) (cap : ℕ) (room : cap * w ≤ length b) where
  -- A write to a slot outside the ring is not seen.
  pub ring-set_apart :
      (h n j : ℕ) (x : Bytes)
      → h < cap
      → n ≤ cap
      → j < cap
      → length x ≡ w
      → ((i : ℕ) → i < n → j ≢ wrap cap (h + i))
      → ring w (set_slot w b j x) cap h n ≡ ring w b cap h n
  ring-set_apart h n j x hh hn hj e apart =
      tabulate_ext n _ _
        λ i p. slot-set_slot_ne w b cap room j (wrap cap (h + i)) x hj e (apart i p)

  -- Writing the slot just past a ring extends it by that element.
  pub ring-set_end :
      (h n : ℕ) (x : Bytes)
      → h < cap
      → n < cap
      → length x ≡ w
      → ring w (set_slot w b (wrap cap (h + n)) x) cap h (n + 1) ≡ ring w b cap h n ++ (x ∷ [])
  ring-set_end h n x hh hn e =
      tabulate-add n 1 _
      ∙ ap₂ ◌++◌
          (ring-set_apart h n (wrap cap (h + n)) x hh (omega arith) (ground arith) e
            (λ i p. ground arith))
          (ap (λ y. y ∷ []) last)
    where
      j : ℕ
      j = wrap cap (h + n)

      at : wrap cap (h + (n + 0)) ≡ j
      at = ap (wrap cap) (omega arith)

      last : slot w (set_slot w b j x) (wrap cap (h + (n + 0))) ≡ x
      last = rw at (slot-set_slot_self w b cap room j x (ground arith) e)
