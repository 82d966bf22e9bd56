-- ===== src/Container/IntrusiveList/Chain.antt =====
-- The nodes between two nodes, along both links.
use coter.Base.{ℕ, ◌≡◌, ◌≢◌, arith, List, [], ◌∷◌, ◌++◌}
use coter.Container.IntrusiveList.{Links, set_prev, set_next}

-- from `a` over `xs` to `b`
abbrev pub Chain : Links → ℕ → List ℕ → ℕ → Type 0
Chain s a [] b = (s.next a ≡ b) × (s.prev b ≡ a)
Chain s a (x ∷ xs) b = ((s.next a ≡ x) × (s.prev x ≡ a)) × Chain s x xs b

-- a node is none of these
abbrev pub Fresh : ℕ → List ℕ → Type 0
Fresh n [] = Unit
Fresh n (x ∷ xs) = (n ≢ x) × Fresh n xs

abbrev pub Distinct : List ℕ → Type 0
Distinct [] = Unit
Distinct (x ∷ xs) = Fresh x xs × Distinct xs

-- the ring of a head
abbrev pub Ring : Links → ℕ → List ℕ → Type 0
Ring s head xs = Distinct (head ∷ xs) × Chain s head xs head

pub set_next-Chain :
    (s : Links) (n v a b : ℕ) (xs : List ℕ)
    → n ≢ a
    → Fresh n xs
    → Chain s a xs b
    → Chain (set_next s n v) a xs b
set_next-Chain s n v a b [] p f c = ground arith
set_next-Chain s n v a b (x ∷ xs) p f c = (ground arith, set_next-Chain s n v x b xs f.0 f.1 c.1)

pub set_prev-Chain :
    (s : Links) (n v a b : ℕ) (xs : List ℕ)
    → n ≢ b
    → Fresh n xs
    → Chain s a xs b
    → Chain (set_prev s n v) a xs b
set_prev-Chain s n v a b [] p f c = ground arith
set_prev-Chain s n v a b (x ∷ xs) p f c = (ground arith, set_prev-Chain s n v x b xs p f.1 c.1)

-- a chain through `t`, in two
pub Chain-split :
    (s : Links) (a t b : ℕ) (xs ys : List ℕ)
    → Chain s a (xs ++ t ∷ ys) b
    → Chain s a xs t × Chain s t ys b
Chain-split s a t b [] ys c = c
Chain-split s a t b (x ∷ xs) ys c =
    let (left, right) = Chain-split s x t b xs ys c.1 in ((c.0, left), right)

pub Chain-join :
    (s : Links) (a t b : ℕ) (xs ys : List ℕ)
    → Chain s a xs t
    → Chain s t ys b
    → Chain s a (xs ++ t ∷ ys) b
Chain-join s a t b [] ys c d = (c, d)
Chain-join s a t b (x ∷ xs) ys c d = (c.0, Chain-join s x t b xs ys c.1 d)
