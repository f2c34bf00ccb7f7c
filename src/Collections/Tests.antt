-- ===== src/Collections/Tests.antt =====
-- The containers of packages/core/lib on small inputs.
use node_dlc.Prelude.{ℕ, ◌≡◌, refl, arith, none, some, List, [], ◌∷◌, ok, value, result}
use node_dlc.Collections.Nodes.{Heap, LinkedList, write}
use node_dlc.Collections.LinkedList.{new_list, add, remove}
use node_dlc.Collections.LinkedList.Add.{as_list, Represents, add-Represents}
use node_dlc.Collections.LinkedList.Remove.{remove-Represents}
use node_dlc.Collections.Queue.{Call, push, pop, run, run-fifo}

new_list-Represents : Represents (new_list {T = ℕ}) []
unfolding new_list
new_list-Represents = (refl, tt, tt, λ c b. refl)

abbrev three_nodes : Heap ℕ
three_nodes =
    write
      (write (write (λ a. none) 0 (record { value = 10; prev = none; next = some 1 })) 1
        (record { value = 20; prev = some 0; next = some 2 }))
      2 (record { value = 30; prev = some 1; next = none })

abbrev three : LinkedList ℕ
three = as_list three_nodes 3 ((0, 10) ∷ (1, 20) ∷ (2, 30) ∷ [])

three-Represents : Represents three ((0, 10) ∷ (1, 20) ∷ (2, 30) ∷ [])
three-Represents =
    (refl, (refl, (refl, (refl, tt))), (refl, (refl, (refl, tt))), λ c b. ground arith)

add-Represents_example :
    (t : LinkedList ℕ) × (add 40 three ≡ ok 3 t)
    × Represents t ((0, 10) ∷ (1, 20) ∷ (2, 30) ∷ (3, 40) ∷ [])
add-Represents_example = add-Represents three ((0, 10) ∷ (1, 20) ∷ (2, 30) ∷ []) 40 three-Represents

remove-Represents_example :
    (t : LinkedList ℕ) × (remove 1 three ≡ ok 20 t) × Represents t ((0, 10) ∷ (2, 30) ∷ [])
remove-Represents_example =
    remove-Represents three ((0, 10) ∷ []) ((2, 30) ∷ []) 1 20 three-Represents

abbrev calls : List (Call ℕ)
calls = push 1 ∷ push 2 ∷ pop ∷ push 3 ∷ pop ∷ pop ∷ []

run-fifo_example : result (run calls new_list) ≡ value (1 ∷ 2 ∷ 3 ∷ [])
run-fifo_example = run-fifo calls new_list [] new_list-Represents
