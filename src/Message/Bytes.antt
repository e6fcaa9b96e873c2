-- ===== src/Message/Bytes.antt =====
-- What message.h uses of std::vector<uint8_t> and of memcpy.
use networking_projects.Prelude.{
  ℕ, zero, suc, ◌+◌, ◌≤◌, ◌≡◌, refl, ap, List, [], ◌∷◌, ◌++◌, arith, length, take,
}

-- `resize(n)`: bytes beyond `n` are dropped, missing ones are zero.
unfoldable pub resize : List ℕ → ℕ → List ℕ
resize xs zero = []
resize [] (suc n) = 0 ∷ resize [] n
resize (x ∷ xs) (suc n) = x ∷ resize xs n

-- `memcpy(data + i, bytes)`, inside the vector.
unfoldable pub copy_to : List ℕ → ℕ → List ℕ → List ℕ
copy_to [] i bytes = []
copy_to (x ∷ xs) (suc i) bytes = x ∷ copy_to xs i bytes
copy_to (x ∷ xs) zero [] = x ∷ xs
copy_to (x ∷ xs) zero (b ∷ bytes) = b ∷ copy_to xs zero bytes

pub resize-eq-take : (xs : List ℕ) (n : ℕ) → n ≤ length xs → resize xs n ≡ take n xs
unfolding resize
resize-eq-take xs zero h = refl
resize-eq-take [] (suc n) h = absurd (omega arith)
resize-eq-take (x ∷ xs) (suc n) h = ap (◌∷◌ x) (resize-eq-take xs n (omega arith))

pub length-resize : (xs : List ℕ) (n : ℕ) → length (resize xs n) ≡ n
unfolding resize
length-resize xs zero = refl
length-resize [] (suc n) = ap suc (length-resize [] n)
length-resize (x ∷ xs) (suc n) = ap suc (length-resize xs n)

fill_new : (bytes : List ℕ) → copy_to (resize [] (length bytes)) 0 bytes ≡ bytes
unfolding resize copy_to
fill_new [] = refl
fill_new (b ∷ bytes) = ap (◌∷◌ b) (fill_new bytes)

-- Growing the vector and copying into the new space appends.
pub copy_to-resize :
    (xs bytes : List ℕ)
    → copy_to (resize xs (length xs + length bytes)) (length xs) bytes ≡ xs ++ bytes
unfolding resize copy_to
copy_to-resize [] bytes =
    let e : 0 + length bytes ≡ length bytes = omega arith in rw e (fill_new bytes)
copy_to-resize (x ∷ xs) bytes =
    let e : suc (length xs) + length bytes ≡ suc (length xs + length bytes) = omega arith in
    rw e (ap (◌∷◌ x) (copy_to-resize xs bytes))
