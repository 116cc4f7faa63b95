-- ===== src/Go/Slice.antt =====
-- Indexing and slicing of byte slices, which panic out of range. A slice is as long as its
-- capacity here: no modelled call relies on bytes behind the length.
use jocasta.Prelude.{
  ℕ, ◌+◌, ◌≤◌, ◌≡◌, ◌&&◌, none, some, [], ◌∷◌, refl, ◌++◌, length, get_elem?, take, drop, leb,
  if◌then◌else◌, arith, length-append, take-append, drop-append, append_assoc, length-drop,
  length-take,
}
use jocasta.Go.Io.{Bytes}
use jocasta.Go.Result.{Result, ok, panic}

module _ {E : Type 0} where
  -- b[i]
  unfoldable pub index : Bytes → ℕ → Result E ℕ
  index b i = elim (get_elem? b i) [ none ↦ panic | some x ↦ ok x ]

  -- b[lo:hi]
  unfoldable pub slice : Bytes → ℕ → ℕ → Result E Bytes
  slice b lo hi = if leb lo hi && leb hi (length b) then ok (drop lo (take hi b)) else panic

  -- b[lo:]
  unfoldable pub slice_from : Bytes → ℕ → Result E Bytes
  slice_from b lo = if leb lo (length b) then ok (drop lo b) else panic

  pub slice_from_ok : (b : Bytes) (lo : ℕ) → lo ≤ length b → slice_from b lo ≡ ok (drop lo b)
  unfolding slice_from
  slice_from_ok b lo h = ground arith

  pub slice_ok :
      (b : Bytes) (lo hi : ℕ) → lo ≤ hi → hi ≤ length b → slice b lo hi ≡ ok (drop lo (take hi b))
  unfolding slice
  slice_ok b lo hi h k = ground arith

  -- What stands between a front and a back of known length.
  pub slice-append :
      (xs ys zs : Bytes) (lo hi : ℕ)
      → lo ≡ length xs
      → hi ≡ length xs + length ys
      → slice (xs ++ (ys ++ zs)) lo hi ≡ ok ys
  unfolding slice
  slice-append xs ys zs lo hi h k = ground (
    arith,
    take-append (xs ++ ys) zs,
    drop-append xs ys,
    append_assoc xs ys zs,
    length-append xs ys,
    length-append xs (ys ++ zs),
    length-append ys zs,
  )

  pub slice_from-append :
      (xs ys : Bytes) (lo : ℕ) → lo ≡ length xs → slice_from (xs ++ ys) lo ≡ ok ys
  unfolding slice_from
  slice_from-append xs ys lo h = rw h (ground (arith, length-append xs ys, drop-append xs ys))

  -- What a successful slice expression took.
  pub slice_inv :
      (b : Bytes) (lo hi : ℕ) {xs : Bytes}
      → slice b lo hi ≡ ok xs
      → (xs ≡ drop lo (take hi b)) × (length xs + lo ≡ hi)
  unfolding slice
  slice_inv b lo hi h = ground (arith, length-drop lo (take hi b), length-take hi b)

  -- The element behind a front of known length.
  pub index-append :
      (xs : Bytes) (y : ℕ) (zs : Bytes) (i : ℕ) → i ≡ length xs → index (xs ++ (y ∷ zs)) i ≡ ok y
  unfolding index
  index-append [] y zs i h = rw h refl
  index-append (x ∷ xs) y zs i h = rw h (index-append xs y zs (length xs) refl)
