-- ===== src/LinkedList.antt =====
-- linked_list.c and linked_list.h: a singly linked list. `D` is `data`, and `equal_data` is a
-- parameter, as the header has it. A function that gets `item **root` returns the new root with its
-- result. Each loop runs on fuel; `Block` is what `malloc` returns.
pub mod Linked
pub mod Ends
pub mod Remove
pub mod Walk
use psis_project.Base.{ℕ, zero, suc, ◌+◌, Bool, List, [], ◌∷◌, negsuc, ◌==◌, if◌then◌else◌}
use psis_project.Machine.{exited, out_of_fuel, Cmd, pure, ◌>>=◌, ◌>>◌}
use psis_project.Heap.{Ptr, null, Heap, Block, load, modify, malloc, free}

pub record Item (D : Type 0) : Type 0 where
  pub K : D
  pub next : Ptr

abbrev pub item : {D : Type 0} → D → Ptr → Item D
item k n = record { K = k; next = n }

unfoldable pub list_init : Ptr
list_init = null

module _ {D : Type 0} where
  -- `p->next = q`
  abbrev pub set_next : Ptr → Ptr → Cmd (Heap (Item D)) (Unit {0})
  set_next p q = modify (λ n. record n { next = q }) p

  -- The node that is returned, and the new root.
  unfoldable pub list_first : Ptr → Cmd (Heap (Item D)) (Ptr × Ptr)
  list_first root =
      if root == null
      then pure (root, root)
      else do n ← load root; set_next root null; pure (root, n.next)

  unfoldable pub list_push : Ptr → Ptr → Cmd (Heap (Item D)) Ptr
  list_push root other = if other == null then pure root else do set_next other root; pure other

  unfoldable pub list_insert : Block (Item D) → Ptr → D → Cmd (Heap (Item D)) Ptr
  list_insert block root k = do
    new ← malloc block
    if new == null
        then exited (negsuc 0)
        else (do modify (λ n. record n { K = k }) new; set_next new root; pure new)

  -- `while(aux->next != NULL) aux = aux->next;` returns the last value of `aux`.
  last_loop : ℕ → Ptr → Cmd (Heap (Item D)) Ptr
  last_loop zero aux = λ _. out_of_fuel
  last_loop (suc fuel) aux = do
    n ← load aux
    if n.next == null then pure aux else last_loop fuel n.next

  unfoldable pub list_append : ℕ → Ptr → Ptr → Cmd (Heap (Item D)) Ptr
  unfolding last_loop
  list_append fuel root other =
      if other == null
      then pure root
      else if root == null
      then (do set_next other null; pure other)
      else (do aux ← last_loop fuel root; set_next aux other; set_next other null; pure root)

  unfoldable pub lists_concatenate : ℕ → Ptr → Ptr → Cmd (Heap (Item D)) Ptr
  unfolding last_loop
  lists_concatenate fuel list1 list2 =
      if list1 == null
      then pure list2
      else (do aux ← last_loop fuel list1; set_next aux list2; pure list1)

  count_loop : ℕ → Ptr → ℕ → Cmd (Heap (Item D)) ℕ
  count_loop zero aux count = λ _. out_of_fuel
  count_loop (suc fuel) aux count = do
    n ← load aux
    if n.next == null then pure count else count_loop fuel n.next (count + 1)

  unfoldable pub list_count : ℕ → Ptr → Cmd (Heap (Item D)) ℕ
  unfolding count_loop
  list_count fuel root = if root == null then pure 0 else count_loop fuel root 1

  unfoldable pub list_free : ℕ → Ptr → Cmd (Heap (Item D)) (Unit {0})
  list_free zero root = λ _. out_of_fuel
  list_free (suc fuel) root =
      if root == null then pure tt else (do n ← load root; free root; list_free fuel n.next)

  -- The calls of `print_data`, in order.
  unfoldable pub list_print : ℕ → Ptr → Cmd (Heap (Item D)) (List D)
  list_print zero root = λ _. out_of_fuel
  list_print (suc fuel) root =
      if root == null
      then pure []
      else (do n ← load root; rest ← list_print fuel n.next; pure (n.K ∷ rest))

module _ {D : Type 0} (equal_data : D → D → Bool) where
  search_loop : ℕ → Ptr → D → Cmd (Heap (Item D)) Ptr
  search_loop zero aux k = λ _. out_of_fuel
  search_loop (suc fuel) aux k = do
    n ← load aux
    if equal_data n.K k
        then pure aux
        else (if n.next == null then pure null else search_loop fuel n.next k)

  -- The loop leaves `aux` at a node, so the test of `aux` behind it always fails.
  unfoldable pub list_search : ℕ → Ptr → D → Cmd (Heap (Item D)) Ptr
  unfolding search_loop
  list_search fuel root k = if root == null then pure null else search_loop fuel root k

  remove_loop : ℕ → (aux aux_seg : Ptr) → D → Cmd (Heap (Item D)) ℕ
  remove_loop zero aux aux_seg k = λ _. out_of_fuel
  remove_loop (suc fuel) aux aux_seg k = do
    s ← load aux_seg
    if equal_data s.K k
        then (do set_next aux s.next; free aux_seg; pure 1)
        else (if s.next == null then pure 0 else do a ← load aux; remove_loop fuel a.next s.next k)

  unfoldable pub list_remove : ℕ → Ptr → D → Cmd (Heap (Item D)) (ℕ × Ptr)
  unfolding remove_loop
  list_remove fuel root k = if root == null then pure (0, root) else do
    r ← load root
    if equal_data r.K k
        then (do free root; pure (1, r.next))
        else (if r.next == null
            then pure (0, root)
            else do removed ← remove_loop fuel root r.next k; pure (removed, root))
