-- ===== src/Container/PriorityQueue/Push.antt =====
-- What pushing an element does to a heap, with its storage grown by realloc where it is full.
use coter.Base.{
  ℕ, zero, suc, ◌+◌, ◌*◌, ◌%◌, ◌^◌, ◌≤◌, ◌<◌, ◌≡◌, refl, sym, ap, ◌∙◌, arith, Bool, true, false, ℤ,
  Option, none, some, inl, inr, lt-total, Bool-cases, leb, ltb, ◌==◌, if◌then◌else◌,
}
use mathlib.Core.Path.{subst₂}
use coter.Container.PriorityQueue.{PriorityQueue, parent, next_cap, regrow, reserve, push_in, push}
use coter.Container.PriorityQueue.Items.{one, count, count-same}
use coter.Container.PriorityQueue.Up.{Ranked, IsHeap, push_in-IsHeap, push_in-count}

module _ {ℓ} {A : Type ℓ} where
  -- a block from realloc starts with the elements that lie in the old block and in the request
  abbrev pub KeepsItems : ((ℕ → A) → ℕ → Option (ℕ → A)) → PriorityQueue A → Type ℓ
  KeepsItems realloc self =
      (request : ℕ) (next : ℕ → A)
      → realloc self.all request ≡ some next
      → (i : ℕ) → i < self.cap
      → (i + 1) * self.item_size ≤ request
      → next i ≡ self.all i

  -- whether a block was had
  abbrev pub had : Option (ℕ → A) → Bool
  had none = false
  had (some _) = true

if_true {ℓ} : {A : Type ℓ} {x : A} (y : A) (b : Bool) → b ≡ true → (if b then x else y) ≡ x
if_true y true e = refl
if_true y false e = absurd (cc)

if_false {ℓ} : {A : Type ℓ} {y : A} (x : A) (b : Bool) → b ≡ false → (if b then x else y) ≡ y
if_false x false e = refl
if_false x true e = absurd (cc)

mul_le : (a b w : ℕ) → a ≤ b → a * w ≤ b * w
mul_le a b w h = grind arith

-- the growth of a full heap: the capacity asked for, and a request that does not wrap
growth :
    (cap w : ℕ)
    → 0 < w
    → w < 2 ^ 10
    → cap * 2 * w < 2 ^ 32
    → let new_cap = if cap == 0 then 8 else cap * 2 in
      ((if cap == 0 then 8 else (cap * 2) % 2 ^ 32) ≡ new_cap)
      × (cap < new_cap)
      × ((new_cap * w) % 2 ^ 32 ≡ new_cap * w)
growth zero w p q h = (refl, omega arith, omega arith)
growth (suc c) w p q h =
    let one_each = mul_le 1 w (suc c * 2) p in
    let swap : w * (suc c * 2) ≡ suc c * 2 * w = grind arith in
    let full : (suc c == 0) ≡ false = ground arith in
    rw full (omega arith, omega arith, omega (arith, h))

module _ {ℓ} {A : Type ℓ} (cmp : A → A → ℤ) (rank : A → ℕ) (ranked : Ranked cmp rank) where
  -- what a push that answers `ok` leaves
  pub record Pushed (self : PriorityQueue A) (item : A) (ok : Bool) (r : Bool × PriorityQueue A)
      : Type ℓ where
    pub answer : r.0 ≡ ok
    pub ordered : IsHeap rank r.1.size r.1.all
    pub counted :
        (test : A → Bool)
        → count test r.1.size r.1.all
          ≡ count test self.size self.all + (if ok then one (test item) else 0)
    pub fits : r.1.size ≤ r.1.cap

  module _ (self : PriorityQueue A) (item : A) (fits : self.size ≤ self.cap)
      (h : IsHeap rank self.size self.all) where
    refused-Pushed : Pushed self item false (false, self)
    refused-Pushed = record {
      answer = refl;
      ordered = h;
      counted = λ test. omega arith;
      fits = fits;
    }

    -- into a heap of the same elements that has room
    push_in-Pushed :
        (g : PriorityQueue A)
        → g.size ≡ self.size
        → g.size < g.cap
        → ((i : ℕ) → i < self.size → g.all i ≡ self.all i)
        → Pushed self item true (true, push_in cmp g item)
    unfolding push_in
    push_in-Pushed g size_same room same = record {
      answer = refl;
      ordered = push_in-IsHeap cmp rank ranked g item λ c p q.
          ground
            (arith, h c, ap rank (same c (omega arith)), ap rank (same (parent c) (ground arith)));
      counted = λ test. ground (
        arith,
        push_in-count cmp rank ranked test g item,
        ap (λ n. count test n g.all) size_same,
        count-same test self.size self.all g.all same,
      );
      fits = omega arith;
    }

    regrow-Pushed :
        (new_cap : ℕ) (o : Option (ℕ → A))
        → self.size < new_cap
        → ((next : ℕ → A) → o ≡ some next → (i : ℕ) → i < self.size → next i ≡ self.all i)
        → let r = regrow self new_cap o in
          Pushed self item (had o) (if r.0 then (true, push_in cmp r.1 item) else (false, r.1))
    regrow-Pushed new_cap none more same = refused-Pushed
    regrow-Pushed new_cap (some next) more same =
        push_in-Pushed (record self { all = next; cap = new_cap }) refl more (same next refl)

  -- The three ways that a push goes.
  module _ (realloc : (ℕ → A) → ℕ → Option (ℕ → A)) (self : PriorityQueue A) (item : A) where
    push_room :
        (self.size == self.cap) ≡ false → push cmp realloc self item ≡ (true, push_in cmp self item)
    unfolding push
    push_room e = if_false _ (self.size == self.cap) e

    push_fixed :
        (self.size == self.cap) ≡ true
        → self.is_dynamic ≡ false
        → push cmp realloc self item ≡ (false, self)
    unfolding push reserve
    push_fixed e fixed =
        if_true _ (self.size == self.cap) e
        ∙ ap
            (λ (r : Bool × PriorityQueue A).
              if r.0 then (true, push_in cmp r.1 item) else (false, r.1))
            (if_false _ self.is_dynamic fixed)

    push_grows :
        (self.size == self.cap) ≡ true
        → self.is_dynamic ≡ true
        → (new_cap : ℕ) → next_cap self ≡ new_cap
        → self.cap < new_cap
        → (new_cap * self.item_size) % 2 ^ 32 ≡ new_cap * self.item_size
        → let r = regrow self new_cap (realloc self.all (new_cap * self.item_size)) in
          push cmp realloc self item ≡ (if r.0 then (true, push_in cmp r.1 item) else (false, r.1))
    unfolding push reserve
    push_grows e dynamic new_cap caps more request =
        if_true _ (self.size == self.cap) e
        ∙ ap
            (λ (r : Bool × PriorityQueue A).
              if r.0 then (true, push_in cmp r.1 item) else (false, r.1))
            (ap (reserve realloc self) caps
              ∙ if_true _ self.is_dynamic dynamic
              ∙ if_false _ (leb new_cap self.cap) (ground arith)
              ∙ ap (λ k. regrow self new_cap (realloc self.all k)) request)

  -- A push to a heap of less than 2 ^ 31 bytes, of elements of 1 to 1023 bytes that are ordered by a rank,
  -- where realloc keeps the elements that lie in the request: it succeeds exactly if there is room, or if
  -- the storage grows and realloc has a block of twice the capacity, or of eight elements at first. The
  -- result is a heap again, within its capacity, with the elements of before and the item if it succeeds,
  -- counted under any test.
  pub heap_push :
      (realloc : (ℕ → A) → ℕ → Option (ℕ → A)) (self : PriorityQueue A) (item : A)
      → KeepsItems realloc self
      → 0 < self.item_size
      → self.item_size < 2 ^ 10
      → self.cap * 2 * self.item_size < 2 ^ 32
      → self.size ≤ self.cap
      → IsHeap rank self.size self.all
      → let new_cap = if self.cap == 0 then 8 else self.cap * 2 in
        Pushed self item
          (if ltb self.size self.cap
            then true
            else if self.is_dynamic
            then had (realloc self.all (new_cap * self.item_size))
            else false)
          (push cmp realloc self item)
  heap_push realloc self item keeps some_byte small bound fits h =
      let new_cap = if self.cap == 0 then 8 else self.cap * 2 in
      let w = self.item_size in
      let Result : Bool → Bool × PriorityQueue A → Type ℓ = Pushed self item in
      elim (lt-total self.size self.cap) [
        | inl room ↦
            subst₂ Result (sym (if_true _ (ltb self.size self.cap) (ground arith)))
              (sym (push_room realloc self item (ground arith)))
              (push_in-Pushed self item fits h self refl room (λ i p. refl))
        | inr full ↦
            let same : (self.size == self.cap) ≡ true = ground arith in
            let closed : ltb self.size self.cap ≡ false = ground arith in
            let shut = if_false true (ltb self.size self.cap) closed in
            elim (Bool-cases self.is_dynamic) [
              | inl dynamic ↦
                  let (caps, more, request) = growth self.cap w some_byte small bound in
                  let o = realloc self.all (new_cap * w) in
                  subst₂ Result (sym (shut ∙ if_true _ self.is_dynamic dynamic))
                    (sym (push_grows realloc self item same dynamic new_cap caps more request))
                    (regrow-Pushed self item fits h new_cap o (omega arith) (λ next e i p.
                      keeps (new_cap * w) next e i (omega arith)
                        (mul_le (i + 1) new_cap w (omega arith))))
              | inr fixed ↦
                  subst₂ Result (sym (shut ∙ if_false _ self.is_dynamic fixed))
                    (sym (push_fixed realloc self item same fixed))
                    (refused-Pushed self item fits h)
            ]
      ]
