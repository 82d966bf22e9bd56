-- ===== src/Container/Array/Shift.antt =====
-- Making and closing a gap in a block of bytes.
use coter.Base.{
  ℕ, ◌+◌, ◌-◌, ◌≤◌, ◌≡◌, ap, ◌∙◌, arith, ◌++◌, Bytes, length, take, drop, slice, splice, get_or,
  get_or-take, get_or-drop, get_or-append, get_or-splice, get_or-slice, length-take, length-drop,
  length-slice, length-splice, length-append, list_ext, lt-total, inl, inr,
}

-- The first `n` bytes with `x` put in at `p`.
pub gap-made :
    (b x : Bytes) (n p : ℕ)
    → p ≤ n
    → n + length x ≤ length b
    → take (n + length x) (splice (splice b (p + length x) (slice b p (n - p))) p x)
      ≡ take p (take n b) ++ (x ++ drop p (take n b))
gap-made b x n p h room = list_ext _ _ 0 sizes λ i q.
    let shut : get_or (take (n + length x) (splice shifted p x)) i 0
        ≡ get_or (splice shifted p x) i 0 =
      get_or-take (n + length x) (splice shifted p x) i 0
        (omega (arith, sizes_left, length-take (n + length x) (splice shifted p x))) in
    let written =
      get_or-splice shifted p x i (omega (arith, length-splice b (p + length x) moved)) in
    let moved_up = get_or-splice b (p + length x) moved i (omega (arith, inner)) in
    let split = get_or-append (take p (take n b)) (x ++ drop p (take n b)) i 0 in
    let split_rest = get_or-append x (drop p (take n b)) (i - p) 0 in
    elim (lt-total i p) [
      | inl early ↦ ground (
        arith,
        front,
        shut,
        written,
        moved_up,
        split,
        get_or-take p (take n b) i 0,
        get_or-take n b i 0,
      )
      | inr late ↦ elim (lt-total i (p + length x)) [
        | inl inside ↦ ground (arith, front, shut, written, split, split_rest)
        | inr behind ↦
            let there : p + (i - (p + length x)) ≡ i - length x = omega arith in
            let here : p + (i - p - length x) ≡ i - length x = omega arith in
            ground (
              arith,
              front,
              inner,
              sizes_left,
              shut,
              written,
              moved_up,
              split,
              split_rest,
              get_or-slice b p (n - p) (i - (p + length x)),
              ap (λ k. get_or b k 0) there,
              get_or-drop p (take n b) (i - p - length x) 0,
              ap (λ k. get_or (take n b) k 0) here,
              get_or-take n b (i - length x) 0,
              length-take (n + length x) (splice shifted p x),
            )
      ]
    ]
  where
    moved : Bytes
    moved = slice b p (n - p)

    shifted : Bytes
    shifted = splice b (p + length x) moved

    inner : length moved ≡ n - p
    inner = omega (arith, length-slice b p (n - p))

    front : length (take p (take n b)) ≡ p
    front = omega (arith, length-take p (take n b), length-take n b)

    sizes_left : length (splice shifted p x) ≡ length b
    sizes_left = length-splice shifted p x ∙ length-splice b (p + length x) moved

    sizes :
        length (take (n + length x) (splice shifted p x))
        ≡ length (take p (take n b) ++ (x ++ drop p (take n b)))
    sizes = omega (
      arith,
      sizes_left,
      front,
      length-take (n + length x) (splice shifted p x),
      length-append (take p (take n b)) (x ++ drop p (take n b)),
      length-append x (drop p (take n b)),
      length-drop p (take n b),
      length-take n b,
    )

-- The first `n` bytes without the `w` from `p` on.
pub gap-closed :
    (b : Bytes) (n p w : ℕ)
    → p + w ≤ n
    → n ≤ length b
    → take (n - w) (splice b p (slice b (p + w) (n - p - w)))
      ≡ take p (take n b) ++ drop (p + w) (take n b)
gap-closed b n p w h room = list_ext _ _ 0 sizes λ i q.
    let shut : get_or (take (n - w) (splice b p moved)) i 0 ≡ get_or (splice b p moved) i 0 =
      get_or-take (n - w) (splice b p moved) i 0
        (omega (arith, length-take (n - w) (splice b p moved))) in
    let written = get_or-splice b p moved i (omega (arith, inner)) in
    let split = get_or-append (take p (take n b)) (drop (p + w) (take n b)) i 0 in
    elim (lt-total i p) [
      | inl early ↦
          ground
            (arith, front, shut, written, split, get_or-take p (take n b) i 0, get_or-take n b i 0)
      | inr late ↦
          let there : p + w + (i - p) ≡ i + w = omega arith in
          ground (
            arith,
            front,
            inner,
            shut,
            written,
            split,
            get_or-slice b (p + w) (n - p - w) (i - p),
            get_or-drop (p + w) (take n b) (i - p) 0,
            ap (λ k. get_or b k 0) there,
            ap (λ k. get_or (take n b) k 0) there,
            get_or-take n b (i + w) 0,
            length-take (n - w) (splice b p moved),
            length-splice b p moved,
          )
    ]
  where
    moved : Bytes
    moved = slice b (p + w) (n - p - w)

    inner : length moved ≡ n - p - w
    inner = omega (arith, length-slice b (p + w) (n - p - w))

    front : length (take p (take n b)) ≡ p
    front = omega (arith, length-take p (take n b), length-take n b)

    sizes :
        length (take (n - w) (splice b p moved))
        ≡ length (take p (take n b) ++ drop (p + w) (take n b))
    sizes = omega (
      arith,
      front,
      length-splice b p moved,
      length-take (n - w) (splice b p moved),
      length-append (take p (take n b)) (drop (p + w) (take n b)),
      length-drop (p + w) (take n b),
      length-take n b,
    )
