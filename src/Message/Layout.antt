-- ===== src/Message/Layout.antt =====
-- Object representations. How the compiler lays out a trivially copyable value is not in the
-- sources: it is a parameter, with the law that copying a value's bytes into an object of its type
-- gives the value back.
use networking_projects.Prelude.{ℕ, ◌≡◌, List, length}

pub record Pod (A : Type 0) : Type 1 where
  -- `sizeof(A)`
  pub size : ℕ
  pub to_bytes : A → List ℕ
  pub of_bytes : List ℕ → A
  -- The numbers in a value lie in the range of their C++ types.
  pub IsValue : A → Type 0
  pub length-to_bytes : (a : A) → length (to_bytes a) ≡ size
  pub of_bytes-to_bytes : (a : A) → IsValue a → of_bytes (to_bytes a) ≡ a
