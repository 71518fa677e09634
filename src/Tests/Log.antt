-- ===== src/Tests/Log.antt =====
-- A run of the theorem on the lines of the log.
use shuchuang.Shared.{ℕ, ◌≡◌, ◌↔◌, ◌≤◌, ◌+◌, List, [], ◌∷◌, ◌++◌, length, take, arith}
use shuchuang.Common.Log.{print, print_message}
use shuchuang.Common.Log.Buffer.{Within, print_message-Within}

abbrev info : List ℕ
info = 105 ∷ 110 ∷ 102 ∷ 111 ∷ []

abbrev ready : List ℕ
ready = 111 ∷ 107 ∷ []

print_message-Within_example :
    let l = print_message [] info ready in
    (l.text ≡ take 8190 (([] ++ (info ++ 32 ∷ [])) ++ ready))
    × (Within (print (10 ∷ []) l).touched
        ↔ (length {A = ℕ} [] + length info + 1 + length ready ≤ 8191))
print_message-Within_example = print_message-Within [] info ready (omega arith) (omega arith)
