-- ===== src/Ring.antt =====
-- ring_list.c and ring_list.h: a circular doubly linked list. `D` is `data_r`, and `equal_data_r`
-- is a parameter, as the header has it. A function that gets `item_r **root` returns the new root
-- with its result. Each loop runs on fuel; `Block` is what `malloc` returns.
pub mod Chain
pub mod Circle
pub mod Push
pub mod Unlink
pub mod Remove
pub mod Walk
pub mod Concat
pub mod Release
use psis_project.Base.{
  ℕ, zero, suc, ◌+◌, Bool, Option, none, some, List, [], ◌∷◌, negsuc, ◌==◌, if◌then◌else◌,
}
use psis_project.Machine.{exited, out_of_fuel, Cmd, pure, ◌>>=◌, ◌>>◌}
use psis_project.Heap.{Ptr, null, Heap, Block, store, load, modify, malloc, free}

pub record Item (D : Type 0) : Type 0 where
  pub K : D
  pub next : Ptr
  pub prev : Ptr

abbrev pub item : {D : Type 0} → D → Ptr → Ptr → Item D
item k n p = record { K = k; next = n; prev = p }

module _ {D : Type 0} where
  -- `p->next = q` and `p->prev = q`
  abbrev pub set_next : Ptr → Ptr → Cmd (Heap (Item D)) (Unit {0})
  set_next p q = modify (λ n. record n { next = q }) p

  abbrev pub set_prev : Ptr → Ptr → Cmd (Heap (Item D)) (Unit {0})
  set_prev p q = modify (λ n. record n { prev = q }) p

pub ring_init : Ptr
ring_init = null

module _ {D : Type 0} where
  -- The two branches of `ring_first` on a ring that is not empty: the new root.
  pub drop_root : Ptr → Cmd (Heap (Item D)) Ptr
  drop_root first = do
    n ← load first
    if n.next == first
        then pure null
        else do set_prev n.next n.prev; f ← load first; set_next f.prev n.next; pure n.next

  unfoldable pub ring_first : Ptr → Cmd (Heap (Item D)) (Ptr × Ptr)
  unfolding drop_root
  ring_first root =
      if root == null
      then pure (root, root)
      else do root' ← drop_root root; set_next root null; set_prev root null; pure (root, root')

  unfoldable pub ring_push : Ptr → Ptr → Cmd (Heap (Item D)) Ptr
  ring_push root other =
      if root == null then (do set_next other other; set_prev other other; pure other) else (do
        r ← load root
        set_prev other r.prev
        r ← load root
        set_next r.prev other
        set_next other root
        set_prev root other
        pure root)

  unfoldable pub ring_append : Block (Item D) → Ptr → D → Cmd (Heap (Item D)) Ptr
  unfolding ring_push
  ring_append block root k = do
    new ← malloc block
    if new == null
        then exited (negsuc 0)
        else (do modify (λ n. record n { K = k }) new; ring_push root new)

  count_loop : ℕ → (root aux : Ptr) → ℕ → Cmd (Heap (Item D)) ℕ
  count_loop zero root aux count = λ _. out_of_fuel
  count_loop (suc fuel) root aux count = do
    n ← load aux
    if n.next == root then pure count else count_loop fuel root n.next (count + 1)

  unfoldable pub ring_count : ℕ → Ptr → Cmd (Heap (Item D)) ℕ
  unfolding count_loop
  ring_count fuel root = if root == null then pure 0 else count_loop fuel root root 1

  unfoldable pub rings_concatenate : Ptr → Ptr → Cmd (Heap (Item D)) Ptr
  rings_concatenate list1 list2 =
      if list1 == null then pure list2 else if list2 == null then pure list1 else (do
        b ← load list2
        set_next b.prev list1
        a ← load list1
        set_next a.prev list2
        a ← load list1
        b ← load list2
        set_prev list1 b.prev
        set_prev list2 a.prev
        pure list1)

  unfoldable pub ring_dering : Ptr → Cmd (Heap (Item D)) Ptr
  ring_dering root =
      if root == null
      then pure root
      else (do r ← load root; set_next r.prev null; set_prev root null; pure root)

  free_loop : ℕ → Ptr → Cmd (Heap (Item D)) (Unit {0})
  free_loop zero root = λ _. out_of_fuel
  free_loop (suc fuel) root =
      if root == null then pure tt else (do n ← load root; free root; free_loop fuel n.next)

  unfoldable pub ring_free : ℕ → Ptr → Cmd (Heap (Item D)) (Unit {0})
  unfolding ring_dering free_loop
  ring_free fuel root = ring_dering root >>= free_loop fuel

  -- The calls of `print_data_r`, in order.
  print_loop : ℕ → (root aux : Ptr) → Cmd (Heap (Item D)) (List D)
  print_loop zero root aux = λ _. out_of_fuel
  print_loop (suc fuel) root aux =
      if aux == root
      then pure []
      else (do n ← load aux; rest ← print_loop fuel root n.next; pure (n.K ∷ rest))

  -- `none` is the line "Empty List!".
  unfoldable pub ring_print : ℕ → Ptr → Cmd (Heap (Item D)) (Option (List D))
  unfolding print_loop
  ring_print fuel root =
      if root == null
      then pure none
      else (do r ← load root; rest ← print_loop fuel root r.next; pure (some (r.K ∷ rest)))

  -- `ring_remove` where the root holds `K`: its result and the new root.
  pub remove_root : (root aux_seg : Ptr) → Cmd (Heap (Item D)) (ℕ × Ptr)
  remove_root root aux_seg = if root == aux_seg then free root >> pure (1, null) else (do
    r ← load root
    a ← load root
    set_prev r.next a.prev
    a ← load root
    set_next a.prev r.next
    free root
    pure (1, r.next))

  pub unlink : (aux aux_seg : Ptr) → Cmd (Heap (Item D)) ℕ
  unlink aux aux_seg = do
    s ← load aux_seg
    set_next aux s.next
    s ← load aux_seg
    set_prev s.next aux
    free aux_seg
    pure 1

module _ {D : Type 0} (equal_data_r : D → D → Bool) where
  search_loop : ℕ → (root aux : Ptr) → D → Cmd (Heap (Item D)) Ptr
  search_loop zero root aux k = λ _. out_of_fuel
  search_loop (suc fuel) root aux k = do
    n ← load aux
    if equal_data_r n.K k
        then pure aux
        else (if n.next == root then pure null else search_loop fuel root n.next k)

  unfoldable pub ring_search : ℕ → Ptr → D → Cmd (Heap (Item D)) Ptr
  unfolding search_loop
  ring_search fuel root k = if root == null then pure null else search_loop fuel root root k

  remove_loop : ℕ → (root aux aux_seg : Ptr) → D → Cmd (Heap (Item D)) ℕ
  unfolding unlink
  remove_loop zero root aux aux_seg k = λ _. out_of_fuel
  remove_loop (suc fuel) root aux aux_seg k = do
    s ← load aux_seg
    if equal_data_r s.K k
        then unlink aux aux_seg
        else (if s.next == root
            then pure 0
            else do a ← load aux; remove_loop fuel root a.next s.next k)

  unfoldable pub ring_remove : ℕ → Ptr → D → Cmd (Heap (Item D)) (ℕ × Ptr)
  unfolding remove_root remove_loop
  ring_remove fuel root k = if root == null then pure (0, root) else do
    r ← load root
    if equal_data_r r.K k
        then remove_root root r.next
        else (if r.next == root
            then pure (0, root)
            else do removed ← remove_loop fuel root root r.next k; pure (removed, root))
