-- ===== src/Base/Window.antt =====
-- Lists given by a function of the index, and the index that goes round at the end of an array.
use Prim.Native.Nat.{ℕ, zero, suc, ◌+◌, ◌-◌, ◌≤◌, ◌<◌}
use mathlib.Core.Path.{◌≡◌, refl, ap, ap₂, ◌∙◌}
use mathlib.Core.List.{List, [], ◌∷◌, ◌++◌}
use native.Mathlib.Omega.{arith}
use coter.Base.Tests.{leb, if◌then◌else◌}
use coter.Base.Lists.{length, get_or, take, drop}

-- `k` less the size of the array, if `k` is past its end
abbrev pub wrap : ℕ → ℕ → ℕ
wrap cap k = if leb cap k then k - cap else k

module _ {ℓ} {A : Type ℓ} where
  -- `f 0 ∷ … ∷ f (n - 1)`
  abbrev pub tabulate : ℕ → (ℕ → A) → List A
  tabulate zero f = []
  tabulate (suc n) f = f 0 ∷ tabulate n (λ i. f (suc i))

  pub length-tabulate : (n : ℕ) (f : ℕ → A) → length (tabulate n f) ≡ n
  length-tabulate zero f = refl
  length-tabulate (suc n) f = ap suc (length-tabulate n (λ i. f (suc i)))

  pub get_or-tabulate :
      (n : ℕ) (f : ℕ → A) (i : ℕ) (d : A) → i < n → get_or (tabulate n f) i d ≡ f i
  get_or-tabulate zero f i d h = absurd (omega arith)
  get_or-tabulate (suc n) f zero d h = refl
  get_or-tabulate (suc n) f (suc i) d h = get_or-tabulate n (λ k. f (suc k)) i d (omega arith)

  pub tabulate_ext :
      (n : ℕ) (f g : ℕ → A) → ((i : ℕ) → i < n → f i ≡ g i) → tabulate n f ≡ tabulate n g
  tabulate_ext zero f g h = refl
  tabulate_ext (suc n) f g h =
      ap₂ ◌∷◌ (h 0 (omega arith))
        (tabulate_ext n (λ i. f (suc i)) (λ i. g (suc i)) (λ i p. h (suc i) (omega arith)))

  pub tabulate-add :
      (n m : ℕ) (f : ℕ → A) → tabulate (n + m) f ≡ tabulate n f ++ tabulate m (λ i. f (n + i))
  tabulate-add zero m f =
      let e : 0 + m ≡ m = omega arith in rw e (tabulate_ext m f _ (λ i p. ap f (omega arith)))
  tabulate-add (suc n) m f =
      let e : suc n + m ≡ suc (n + m) = omega arith in
      rw e (
        ap (◌∷◌ (f 0)) (
          tabulate-add n m (λ i. f (suc i))
          ∙ ap (◌++◌ (tabulate n (λ i. f (suc i))))
              (tabulate_ext m _ _ (λ i p. ap f (omega arith)))))

  pub take-tabulate :
      (n : ℕ) (xs : List A) (d : A) → n ≤ length xs → take n xs ≡ tabulate n (λ i. get_or xs i d)
  take-tabulate zero xs d h = refl
  take-tabulate (suc n) [] d h = absurd (omega arith)
  take-tabulate (suc n) (x ∷ xs) d h = ap (◌∷◌ x) (take-tabulate n xs d (omega arith))

  -- The first entries of a tabulated list, and the others.
  pub take_of_tabulate : (n m : ℕ) (f : ℕ → A) → n ≤ m → take n (tabulate m f) ≡ tabulate n f
  take_of_tabulate zero m f h = refl
  take_of_tabulate (suc n) zero f h = absurd (omega arith)
  take_of_tabulate (suc n) (suc m) f h =
      ap (◌∷◌ (f 0)) (take_of_tabulate n m (λ i. f (suc i)) (omega arith))

  pub drop-tabulate :
      (n m : ℕ) (f : ℕ → A) → n ≤ m → drop n (tabulate m f) ≡ tabulate (m - n) (λ i. f (n + i))
  drop-tabulate zero m f h =
      let e : m - 0 ≡ m = omega arith in rw e (tabulate_ext m f _ (λ i p. ap f (omega arith)))
  drop-tabulate (suc n) zero f h = absurd (omega arith)
  drop-tabulate (suc n) (suc m) f h =
      let e : suc m - suc n ≡ m - n = omega arith in
      rw e (
        drop-tabulate n m (λ i. f (suc i)) (omega arith)
        ∙ tabulate_ext (m - n) _ _ (λ i p. ap f (omega arith)))
