-- ===== src/Message/Tests.antt =====
-- Messages with numbers of four bytes.
use mathlib.Core.List.{reverse}
use networking_projects.Prelude.{
  ℕ, ◌<◌, ◌≡◌, ◌↔◌, refl, List, [], ◌∷◌, ◌++◌, All, none, some, arith, length,
}
use networking_projects.Message.{Message, empty, push, pull}
use networking_projects.Message.Bytes.{resize, copy_to}
use networking_projects.Message.Layout.{Pod}
use networking_projects.Message.LittleEndian.{unsigned}
use networking_projects.Message.Laws.{IsSized, sized, pull-push, pull-none_iff, pull-IsSized}
use networking_projects.Message.Stack.{push_all, pull_all, pull_all-reverse, push-IsSized}

abbrev word : Pod ℕ
word = unsigned 4

abbrev header_only : ℕ → Message ℕ
header_only = empty

-- Six bytes, and what pulling a number off them leaves.
abbrev six : Message ℕ
six = sized 7 (9 ∷ 8 ∷ 1 ∷ 2 ∷ 0 ∷ 0 ∷ [])

abbrev two : Message ℕ
two = sized 7 (9 ∷ 8 ∷ [])

push_number :
    push word (header_only 3) 258
    ≡ record { header = record { id = 3; size = 4 }; body = 2 ∷ 1 ∷ 0 ∷ 0 ∷ [] }
unfolding push empty resize copy_to
push_number = refl

six_pulled : pull word six ≡ some (two, 513)
unfolding pull resize
six_pulled = refl

pull-push_example : pull word (push word two 70_000) ≡ some (two, 70_000)
pull-push_example = pull-push word two 70_000 refl (omega arith)

short_body : (pull word two ≡ none) ↔ (length two.body < word.size)
short_body = pull-none_iff word two

size_after_pull :
    IsSized two
    × (two.header.id ≡ six.header.id)
    × ((bytes : List ℕ) × (six.body ≡ two.body ++ bytes)
        × (length bytes ≡ word.size)
        × (513 ≡ word.of_bytes bytes))
size_after_pull = pull-IsSized word six two 513 six_pulled

abbrev numbers : List ℕ
numbers = 1 ∷ 256 ∷ 70_000 ∷ []

numbers_fit : All word.IsValue numbers
numbers_fit = (omega arith, (omega arith, (omega arith, tt)))

pull_all-reverse_example :
    pull_all word (length numbers) (push_all word two numbers) ≡ some (two, reverse numbers)
pull_all-reverse_example = pull_all-reverse word two numbers refl numbers_fit

size_after_push : IsSized (push word six 5)
size_after_push = push-IsSized word six 5
