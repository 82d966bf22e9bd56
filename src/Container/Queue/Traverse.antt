-- ===== src/Container/Queue/Traverse.antt =====
-- ct_queue_traverse against a fold over the elements.
use native.Mathlib.Decide.{ℕ_discrete}
use coter.Base.{
  ℕ, zero, suc, ◌+◌, ◌*◌, ◌≤◌, ◌<◌, ◌≡◌, ◌≢◌, refl, ap, List, [], ◌∷◌, some, arith, length, ℤ, pos,
  is_nonzero, Bytes, wrap, slot, set_slot, length-slot, length-set_slot, size_mod,
  slot-set_slot_self, slot-set_slot_ne, if◌then◌else◌,
}
use coter.Container.Slots.{ring, ring-suc, ring-set_apart}
use coter.Container.Queue.{Queue, index_inc, traverse_loop, traverse}
use coter.Container.Queue.Inv.{IsValid}
use coter.Container.Queue.Refine.{contents}

-- The callback visits the items in order until it answers other than 0, and may replace each.
module _ {ℓ} {S : Type ℓ} (callback : S → Bytes → ℤ × S × Bytes) where
  pub visit : List Bytes → S → ℤ × S × List Bytes
  visit [] s = (pos 0, s, [])
  visit (x ∷ xs) s =
      let (rc, s', x') = callback s x in
      let rest = visit xs s' in
      if is_nonzero rc then (rc, s', x' ∷ xs) else (rest.0, rest.1, x' ∷ rest.2)

module _ {ℓ} {S : Type ℓ} (callback : S → Bytes → ℤ × S × Bytes) (w max : ℕ)
    (small : max < size_mod)
    (keeps : (s : S) (x : Bytes) → length x ≡ w → length (callback s x).2 ≡ w) where
  -- what a run of the loop over `k` slots from `idx` on leaves
  record Visited (k idx : ℕ) (all : Bytes) (s : S) (r : ℤ × S × Bytes) : Type ℓ where
    same : (r.0, r.1, ring w r.2 max idx k) ≡ visit callback (ring w all max idx k) s
    apart :
        (j : ℕ) → j < max → ((i : ℕ) → i < k → j ≢ wrap max (idx + i)) → slot w r.2 j ≡ slot w all j
    sized : length r.2 ≡ length all

  traverse_loop-Visited :
      (k idx : ℕ) (all : Bytes) (s : S)
      → max * w ≤ length all
      → idx < max
      → k ≤ max
      → Visited k idx all s (traverse_loop callback w max k idx all s)
  unfolding traverse_loop visit
  traverse_loop-Visited zero idx all s room hi hk = record {
    same = refl;
    apart = λ j p q. refl;
    sized = refl;
  }
  traverse_loop-Visited (suc k) idx all s room hi hk =
      let x' = (callback s (slot w all idx)).2 in
      let s' = (callback s (slot w all idx)).1 in
      let fits : length x' ≡ w = keeps s (slot w all idx) (length-slot w all max room idx hi) in
      let written = set_slot w all idx x' in
      let len : length written ≡ length all = length-set_slot w all idx x' in
      let inc : index_inc max idx ≡ wrap max (idx + 1) = ground arith in
      let idx' = index_inc max idx in
      let inside : idx' < max = ground arith in
      let ih = traverse_loop-Visited k idx' written s' (omega arith) inside (omega arith) in
      let self = slot-set_slot_self w all max room idx x' hi fits in
      let tail : ring w written max idx' k ≡ ring w all max idx' k =
        ring-set_apart w all max room idx' k idx x' inside (omega arith) hi fits
          (λ i p. ground arith) in
      let split = λ (b : Bytes). ring-suc w b max idx k hi (omega arith) in
      record {
        same = ground (
          arith,
          split all,
          split written,
          split (traverse_loop callback w max k idx' written s').2,
          tail,
          self,
          ih.same,
          ih.apart idx hi (λ i p. ground arith),
        );
        apart = λ j p q.
            let ne : idx ≢ j = λ e. q 0 (omega arith) (ground arith) in
            ground (
              arith,
              slot-set_slot_ne w all max room idx j x' hi fits ne,
              ih.apart j p (λ i r e. q (suc i) (omega arith) (ground arith)),
            );
        sized = ground arith;
      }

-- ct_queue_traverse with a callback that keeps the elements' size: on a valid queue it answers and
-- leaves the argument as the visit of the elements from the oldest on does, up to the first answer
-- other than 0, and the queue then holds the visited elements as the callback left them.
pub traverse_refines {ℓ} :
    {S : Type ℓ} (q : Queue) (callback : S → Bytes → ℤ × S × Bytes) (s : S)
    → IsValid q
    → ((t : S) (x : Bytes) → length x ≡ q.byte → length (callback t x).2 ≡ q.byte)
    → let (rc, t, q') = traverse q (some callback) s in
      (rc, t, contents q') ≡ visit callback (contents q) s
unfolding traverse traverse_loop visit
traverse_refines q callback s v keeps = elim (ℕ_discrete q.max 0) [
  | yes e ↦
      let none_left : q.size ≡ 0 = omega arith in
      ground (
        arith,
        ap (ring q.byte q.all q.max q.head) none_left,
        ap (λ k. traverse_loop callback q.byte q.max k q.head q.all s) none_left,
        ap (λ k. ring q.byte q.all q.max q.head k) none_left,
      )
  | no ne ↦
      let loop =
        traverse_loop-Visited callback q.byte q.max v.small keeps q.size q.head q.all s v.storage
          (omega arith) v.size_in in
      ground (arith, loop.same)
]
