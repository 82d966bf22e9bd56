-- ===== src/Encoding/Binary/Batch.antt =====
-- encoding/src/binary.c: the swaps over arrays of words.
use coter.Base.{
  ℕ, zero, suc, ◌/◌, ◌%◌, ◌^◌, ◌<◌, ◌≡◌, refl, sym, ap, ap₂, ◌∙◌, arith, List, [], ◌∷◌,
}
use coter.Encoding.Binary.{
  bswap16, bswap32, bswap64, bswap16_lanes32, bswap16_lanes64, reverse16_lanes32, reverse16_lanes64,
}
use coter.Encoding.Binary.Swap.{
  bswap16_lem, bswap32_lem, bswap64_lem, bswap16_lanes32_lem, bswap16_lanes64_lem,
  reverse16_lanes32_lem, reverse16_lanes64_lem,
}
use coter.Encoding.Binary.Store.{le_value2, le_value4, le_value8}

-- the loop over the first `count` words
abbrev pub batch : (ℕ → ℕ) → List ℕ → ℕ → List ℕ
batch swap words zero = words
batch swap [] (suc count) = []
batch swap (x ∷ words) (suc count) = swap x ∷ batch swap words count

abbrev pub bswap16_batch : List ℕ → ℕ → List ℕ
bswap16_batch = batch bswap16

abbrev pub bswap32_batch : List ℕ → ℕ → List ℕ
bswap32_batch = batch bswap32

abbrev pub bswap64_batch : List ℕ → ℕ → List ℕ
bswap64_batch = batch bswap64

abbrev pub bswap16_lanes32_batch : List ℕ → ℕ → List ℕ
bswap16_lanes32_batch = batch bswap16_lanes32

abbrev pub bswap16_lanes64_batch : List ℕ → ℕ → List ℕ
bswap16_lanes64_batch = batch bswap16_lanes64

abbrev pub reverse16_lanes32_batch : List ℕ → ℕ → List ℕ
reverse16_lanes32_batch = batch reverse16_lanes32

abbrev pub reverse16_lanes64_batch : List ℕ → ℕ → List ℕ
reverse16_lanes64_batch = batch reverse16_lanes64

-- every word fits the width
abbrev pub AllBelow : ℕ → List ℕ → Type 0
AllBelow bound [] = Unit
AllBelow bound (x ∷ xs) = (x < bound) × AllBelow bound xs

-- A swap that is its own inverse on words is so on arrays.
undo :
    (swap : ℕ → ℕ) (bound : ℕ)
    → ((v : ℕ) → v < bound → swap (swap v) ≡ v)
    → (words : List ℕ) (count : ℕ) → AllBelow bound words
    → batch swap (batch swap words count) count ≡ words
undo swap bound back words zero h = refl
undo swap bound back [] (suc count) h = refl
undo swap bound back (x ∷ words) (suc count) h =
    ap₂ ◌∷◌ (back x h.0) (undo swap bound back words count h.1)

bswap16_undo : (v : ℕ) → v < 2 ^ 16 → bswap16 (bswap16 v) ≡ v
bswap16_undo v h =
    let a : ℕ = v % 256 in
    let b : ℕ = v / 256 % 256 in
    ap (λ u. bswap16 (bswap16 u)) (sym (le_value2 v h))
    ∙ ap bswap16 (bswap16_lem a b (omega arith))
    ∙ bswap16_lem b a (omega arith)
    ∙ le_value2 v h

bswap32_undo : (v : ℕ) → v < 2 ^ 32 → bswap32 (bswap32 v) ≡ v
bswap32_undo v h =
    let a : ℕ = v % 256 in
    let b : ℕ = v / 256 % 256 in
    let c : ℕ = v / 256 / 256 % 256 in
    let d : ℕ = v / 256 / 256 / 256 % 256 in
    ap (λ u. bswap32 (bswap32 u)) (sym (le_value4 v h))
    ∙ ap bswap32 (bswap32_lem a b c d (omega arith))
    ∙ bswap32_lem d c b a (omega arith)
    ∙ le_value4 v h

bswap64_undo : (v : ℕ) → v < 2 ^ 64 → bswap64 (bswap64 v) ≡ v
bswap64_undo v h =
    let a : ℕ = v % 256 in
    let b : ℕ = v / 256 % 256 in
    let c : ℕ = v / 256 / 256 % 256 in
    let d : ℕ = v / 256 / 256 / 256 % 256 in
    let e : ℕ = v / 256 / 256 / 256 / 256 % 256 in
    let f : ℕ = v / 256 / 256 / 256 / 256 / 256 % 256 in
    let g : ℕ = v / 256 / 256 / 256 / 256 / 256 / 256 % 256 in
    let i : ℕ = v / 256 / 256 / 256 / 256 / 256 / 256 / 256 % 256 in
    ap (λ u. bswap64 (bswap64 u)) (sym (le_value8 v h))
    ∙ ap bswap64 (bswap64_lem a b c d e f g i (omega arith))
    ∙ bswap64_lem i g f e d c b a (omega arith)
    ∙ le_value8 v h

bswap16_lanes32_undo : (v : ℕ) → v < 2 ^ 32 → bswap16_lanes32 (bswap16_lanes32 v) ≡ v
bswap16_lanes32_undo v h =
    let a : ℕ = v % 256 in
    let b : ℕ = v / 256 % 256 in
    let c : ℕ = v / 256 / 256 % 256 in
    let d : ℕ = v / 256 / 256 / 256 % 256 in
    ap (λ u. bswap16_lanes32 (bswap16_lanes32 u)) (sym (le_value4 v h))
    ∙ ap bswap16_lanes32 (bswap16_lanes32_lem a b c d (omega arith))
    ∙ bswap16_lanes32_lem b a d c (omega arith)
    ∙ le_value4 v h

bswap16_lanes64_undo : (v : ℕ) → v < 2 ^ 64 → bswap16_lanes64 (bswap16_lanes64 v) ≡ v
bswap16_lanes64_undo v h =
    let a : ℕ = v % 256 in
    let b : ℕ = v / 256 % 256 in
    let c : ℕ = v / 256 / 256 % 256 in
    let d : ℕ = v / 256 / 256 / 256 % 256 in
    let e : ℕ = v / 256 / 256 / 256 / 256 % 256 in
    let f : ℕ = v / 256 / 256 / 256 / 256 / 256 % 256 in
    let g : ℕ = v / 256 / 256 / 256 / 256 / 256 / 256 % 256 in
    let i : ℕ = v / 256 / 256 / 256 / 256 / 256 / 256 / 256 % 256 in
    ap (λ u. bswap16_lanes64 (bswap16_lanes64 u)) (sym (le_value8 v h))
    ∙ ap bswap16_lanes64 (bswap16_lanes64_lem a b c d e f g i (omega arith))
    ∙ bswap16_lanes64_lem b a d c f e i g (omega arith)
    ∙ le_value8 v h

reverse16_lanes32_undo : (v : ℕ) → v < 2 ^ 32 → reverse16_lanes32 (reverse16_lanes32 v) ≡ v
reverse16_lanes32_undo v h =
    let a : ℕ = v % 256 in
    let b : ℕ = v / 256 % 256 in
    let c : ℕ = v / 256 / 256 % 256 in
    let d : ℕ = v / 256 / 256 / 256 % 256 in
    ap (λ u. reverse16_lanes32 (reverse16_lanes32 u)) (sym (le_value4 v h))
    ∙ ap reverse16_lanes32 (reverse16_lanes32_lem a b c d (omega arith))
    ∙ reverse16_lanes32_lem c d a b (omega arith)
    ∙ le_value4 v h

reverse16_lanes64_undo : (v : ℕ) → v < 2 ^ 64 → reverse16_lanes64 (reverse16_lanes64 v) ≡ v
reverse16_lanes64_undo v h =
    let a : ℕ = v % 256 in
    let b : ℕ = v / 256 % 256 in
    let c : ℕ = v / 256 / 256 % 256 in
    let d : ℕ = v / 256 / 256 / 256 % 256 in
    let e : ℕ = v / 256 / 256 / 256 / 256 % 256 in
    let f : ℕ = v / 256 / 256 / 256 / 256 / 256 % 256 in
    let g : ℕ = v / 256 / 256 / 256 / 256 / 256 / 256 % 256 in
    let i : ℕ = v / 256 / 256 / 256 / 256 / 256 / 256 / 256 % 256 in
    ap (λ u. reverse16_lanes64 (reverse16_lanes64 u)) (sym (le_value8 v h))
    ∙ ap reverse16_lanes64 (reverse16_lanes64_lem a b c d e f g i (omega arith))
    ∙ reverse16_lanes64_lem g i e f c d a b (omega arith)
    ∙ le_value8 v h

-- Each of the swaps over arrays, made twice over the same words, gives the array back.
pub batch_twice :
    (xs ys zs : List ℕ) (count : ℕ)
    → AllBelow (2 ^ 16) xs
    → AllBelow (2 ^ 32) ys
    → AllBelow (2 ^ 64) zs
    → (bswap16_batch (bswap16_batch xs count) count ≡ xs)
      × (bswap32_batch (bswap32_batch ys count) count ≡ ys)
      × (bswap64_batch (bswap64_batch zs count) count ≡ zs)
      × (bswap16_lanes32_batch (bswap16_lanes32_batch ys count) count ≡ ys)
      × (bswap16_lanes64_batch (bswap16_lanes64_batch zs count) count ≡ zs)
      × (reverse16_lanes32_batch (reverse16_lanes32_batch ys count) count ≡ ys)
      × (reverse16_lanes64_batch (reverse16_lanes64_batch zs count) count ≡ zs)
batch_twice xs ys zs count hx hy hz = (
  undo bswap16 (2 ^ 16) bswap16_undo xs count hx,
  undo bswap32 (2 ^ 32) bswap32_undo ys count hy,
  undo bswap64 (2 ^ 64) bswap64_undo zs count hz,
  undo bswap16_lanes32 (2 ^ 32) bswap16_lanes32_undo ys count hy,
  undo bswap16_lanes64 (2 ^ 64) bswap16_lanes64_undo zs count hz,
  undo reverse16_lanes32 (2 ^ 32) reverse16_lanes32_undo ys count hy,
  undo reverse16_lanes64 (2 ^ 64) reverse16_lanes64_undo zs count hz,
)
