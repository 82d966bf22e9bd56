-- ===== src/Container/IntrusiveList/Laws.antt =====
-- The operations on the ring of a head against the sequence of its nodes.
use coter.Base.{
  ℕ, zero, suc, ◌<◌, ◌≡◌, ◌≢◌, sym, ap, subst, ◌∙◌, arith, List, [], ◌∷◌, ◌++◌, length, ◌==◌,
  if◌then◌else◌,
}
use coter.Container.IntrusiveList.{
  Links, set_prev, set_next, count_from, size, before, append, remove,
}
use coter.Container.IntrusiveList.Chain.{
  Chain, Fresh, Distinct, Ring, set_next-Chain, set_prev-Chain, Chain-split, Chain-join,
}

Fresh-left : (n : ℕ) (xs ys : List ℕ) → Fresh n (xs ++ ys) → Fresh n xs
Fresh-left n [] ys f = tt
Fresh-left n (x ∷ xs) ys f = (f.0, Fresh-left n xs ys f.1)

Fresh-right : (n : ℕ) (xs ys : List ℕ) → Fresh n (xs ++ ys) → Fresh n ys
Fresh-right n [] ys f = f
Fresh-right n (x ∷ xs) ys f = Fresh-right n xs ys f.1

Fresh-append : (n : ℕ) (xs ys : List ℕ) → Fresh n xs → Fresh n ys → Fresh n (xs ++ ys)
Fresh-append n [] ys f g = g
Fresh-append n (x ∷ xs) ys f g = (f.0, Fresh-append n xs ys f.1 g)

Distinct-drop : (xs ys : List ℕ) (t : ℕ) → Distinct (xs ++ t ∷ ys) → Distinct (xs ++ ys)
Distinct-drop [] ys t d = d.1
Distinct-drop (x ∷ xs) ys t d = (
  Fresh-append x xs ys (Fresh-left x xs (t ∷ ys) d.0) (Fresh-right x xs (t ∷ ys) d.0).1,
  Distinct-drop xs ys t d.1,
)

Distinct-snoc : (xs : List ℕ) (n : ℕ) → Distinct xs → Fresh n xs → Distinct (xs ++ n ∷ [])
Distinct-snoc [] n d f = (tt, tt)
Distinct-snoc (x ∷ xs) n d f =
    (Fresh-append x xs (n ∷ []) d.0 ((λ e. f.0 (sym e)), tt), Distinct-snoc xs n d.1 f.1)

-- The last node before `b` is one of the chain, and so is the first after `a`, or it is `b`.
Fresh-last :
    (s : Links) (n a b : ℕ) (xs : List ℕ) → Chain s a xs b → Fresh n (a ∷ xs) → n ≢ s.prev b
Fresh-last s n a b [] c f = λ e. f.0 (e ∙ c.1)
Fresh-last s n a b (x ∷ xs) c f = Fresh-last s n x b xs c.1 f.1

Fresh-first :
    (s : Links) (n a b : ℕ) (xs : List ℕ) → Chain s a xs b → Fresh n xs → n ≢ b → n ≢ s.next a
Fresh-first s n a b [] c f p = λ e. p (e ∙ c.0)
Fresh-first s n a b (x ∷ xs) c f p = λ e. f.0 (e ∙ c.0.0)

-- the links after a removal
module _ (s : Links) (t : ℕ) where
  removed_links : remove s t ≡ set_prev (set_next s (s.prev t) (s.next t)) (s.next t) (s.prev t)
  unfolding remove
  removed_links =
      let a = set_next s (s.prev t) (s.next t) in
      let same : a.next t ≡ s.next t = ground arith in ap (λ n. set_prev a n (s.prev t)) same

  after_removal-first :
      (a b : ℕ) (ys : List ℕ)
      → Distinct ys
      → Fresh b ys
      → Fresh a ys
      → s.prev t ≡ a
      → Chain s t ys b
      → Chain (remove s t) a ys b
  unfolding remove
  after_removal-first a b [] d f g e c = ground arith
  after_removal-first a b (y ∷ ys) d f g e c =
      let at : s.next t ≡ y = c.0.0 in
      (
        ground arith,
        subst (λ r. Chain r y ys b) (sym removed_links)
            (set_prev-Chain (set_next s (s.prev t) (s.next t)) (s.next t) (s.prev t) y b ys
              (λ q. f.0 (sym q ∙ at)) (subst (λ n. Fresh n ys) (sym at) d.0)
              (set_next-Chain s (s.prev t) (s.next t) y b ys (λ q. g.0 (sym e ∙ q))
                (subst (λ n. Fresh n ys) (sym e) g.1) c.1)),
      )

  edge :
      (a x : ℕ)
      → a ≢ s.prev t
      → x ≢ s.next t
      → (s.next a ≡ x) × (s.prev x ≡ a)
      → ((remove s t).next a ≡ x) × ((remove s t).prev x ≡ a)
  unfolding remove
  edge a x p q c = ground arith

  after_removal :
      (a b : ℕ) (xs ys : List ℕ)
      → Distinct (xs ++ t ∷ ys)
      → Fresh b (xs ++ t ∷ ys)
      → Fresh a (xs ++ t ∷ ys)
      → Chain s a xs t
      → Chain s t ys b
      → Chain (remove s t) a (xs ++ ys) b
  after_removal a b [] ys d f g c k = after_removal-first a b ys d.1 f.1 g.1 c.1 k
  after_removal a b (x ∷ xs) ys d f g c k =
      let above : a ≢ s.prev t = Fresh-last s a x t xs c.1 (g.0, Fresh-left a xs (t ∷ ys) g.1) in
      let below : x ≢ s.next t =
        Fresh-first s x t b ys k (Fresh-right x xs (t ∷ ys) d.0).1 (λ q. f.0 (sym q)) in
      (edge a x above below c.0, after_removal x b xs ys d.1 f.1 d.0 c.1 k)

-- ct_list_remove of a node of a list: the head has the ring of the other nodes, in order.
pub remove-Ring :
    (s : Links) (head t : ℕ) (xs ys : List ℕ)
    → Ring s head (xs ++ t ∷ ys)
    → Ring (remove s t) head (xs ++ ys)
remove-Ring s head t xs ys r =
    let (left, right) = Chain-split s head t head xs ys r.1 in
    (
      Distinct-drop (head ∷ xs) ys t r.0,
      after_removal s t head head xs ys r.0.1 r.0.0 r.0.0 left right,
    )

-- the links after an append, at a node that is not the head
module _ (s : Links) (head node : ℕ) (apart : node ≢ head) where
  appended-next :
      (i : ℕ)
      → (append s head node).next i
        ≡ (if i == s.prev head then node else if i == node then head else s.next i)
  unfolding append before
  appended-next i = ground arith

  appended-prev :
      (i : ℕ)
      → (append s head node).prev i
        ≡ (if i == head then node else if i == node then s.prev head else s.prev i)
  unfolding append before
  appended-prev i = ground arith

  after_append :
      (a : ℕ) (xs : List ℕ)
      → Distinct (a ∷ xs)
      → Fresh head xs
      → node ≢ a
      → Fresh node xs
      → Chain s a xs head
      → Chain (append s head node) a xs node
  after_append a [] d f p q c = ground (arith, appended-next a, appended-prev node)
  after_append a (x ∷ xs) d f p q c =
      let inner : a ≢ s.prev head = Fresh-last s a x head xs c.1 d.0 in
      (ground (arith, appended-next a, appended-prev x), after_append x xs d.1 f.1 q.0 q.1 c.1)

-- ct_list_append of a node that is not in the list: the head has the ring of the nodes of before, in
-- order, and then this one.
pub append-Ring :
    (s : Links) (head node : ℕ) (xs : List ℕ)
    → Ring s head xs
    → Fresh node (head ∷ xs)
    → Ring (append s head node) head (xs ++ node ∷ [])
append-Ring s head node xs r f = (
  Distinct-snoc (head ∷ xs) node r.0 f,
  Chain-join (append s head node) head node head xs []
      (after_append s head node f.0 head xs r.0 r.0.0 f.0 f.1 r.1)
      (ground (
        arith,
        appended-next s head node f.0 node,
        appended-prev s head node f.0 head,
        Fresh-last s node head head xs r.1 f,
      )),
)

count_from-length :
    (fuel : ℕ) (s : Links) (head a : ℕ) (xs : List ℕ)
    → length xs < fuel
    → Fresh head xs
    → Chain s a xs head
    → count_from fuel s head (s.next a) ≡ length xs
unfolding count_from
count_from-length zero s head a xs h f c = absurd (omega arith)
count_from-length (suc fuel) s head a [] h f c = ground arith
count_from-length (suc fuel) s head a (x ∷ xs) h f c =
    ground (arith, count_from-length fuel s head x xs (omega arith) f.1 c.1)

-- ct_list_size of the ring of a head ends, and is the number of its nodes.
pub size-Ring :
    (fuel : ℕ) (s : Links) (head : ℕ) (xs : List ℕ)
    → length xs < fuel
    → Ring s head xs
    → size fuel s head ≡ length xs
unfolding size
size-Ring fuel s head xs h r = count_from-length fuel s head head xs h r.0.0 r.1
