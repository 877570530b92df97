-- ===== src/Heap.antt =====
-- Memory for nodes of one type `N`: what `malloc`, `free` and the arrows of C do.
use psis_project.Base.{ℕ, ◌≡◌, ◌≢◌, Option, none, some, arith, ◌==◌, if◌then◌else◌, ne→==}
use psis_project.Machine.{ok, fault, Cmd, pure, ◌>>=◌, ◌>>◌}

abbrev pub Ptr : Type 0
Ptr = ℕ

abbrev pub null : Ptr
null = 0

-- What a call of `malloc` returns: an address, and the bytes that happen to lie there.
pub record Block (N : Type 0) : Type 0 where
  pub address : Ptr
  pub contents : N

-- `none` is an address that holds no node.
abbrev pub Heap : Type 0 → Type 0
Heap N = Ptr → Option N

module _ {N : Type 0} where
  unfoldable pub write : Heap N → Ptr → Option N → Heap N
  write h p c a = if a == p then c else h a

  pub write_self : (h : Heap N) (p : Ptr) (c : Option N) → write h p c p ≡ c
  unfolding write
  write_self h p c = ground arith

  pub write_other : (h : Heap N) (p a : Ptr) (c : Option N) → a ≢ p → write h p c a ≡ h a
  unfolding write
  write_other h p a c ne = ground arith

  abbrev pub store : Ptr → Option N → Cmd (Heap N) (Unit {0})
  store p c h = ok tt (write h p c)

  -- `malloc(sizeof(N))`: `NULL` if memory is exhausted.
  unfoldable pub malloc : Block N → Cmd (Heap N) Ptr
  malloc b =
      if b.address == null then pure null else store b.address (some b.contents) >> pure b.address

  -- `*p`: a fault at `NULL` and at an address that holds no node.
  unfoldable pub load : Ptr → Cmd (Heap N) N
  load p h = if p == null then fault else elim (h p) [ none ↦ fault | some n ↦ ok n h ]

  -- An assignment to a field of `*p`.
  unfoldable pub modify : (N → N) → Ptr → Cmd (Heap N) (Unit {0})
  modify f p = do n ← load p; store p (some (f n))

  -- `free(p)`, a fault at an address that holds no node (the program never frees `NULL`).
  unfoldable pub free : Ptr → Cmd (Heap N) (Unit {0})
  free p = load p >> store p none

  -- The addresses that `malloc` returns are new: not `NULL`, not in use, and all different.
  pub record IsFresh (h : Heap N) (blocks : ℕ → Block N) : Type 0 where
    pub not_null : (i : ℕ) → (blocks i).address ≢ null
    pub unused : (i : ℕ) → h (blocks i).address ≡ none
    pub different : (i j : ℕ) → (blocks i).address ≡ (blocks j).address → i ≡ j

  module _ (h : Heap N) {p : Ptr} {n : N} (ne : p ≢ null) (holds : h p ≡ some n) where
    pub load-ok : load p h ≡ ok n h
    unfolding load
    load-ok = rw (ne→== p null ne, holds)

    pub modify-ok : (f : N → N) → modify f p h ≡ ok tt (write h p (some (f n)))
    unfolding modify
    modify-ok f = rw load-ok

    pub free-ok : free p h ≡ ok tt (write h p none)
    unfolding free
    free-ok = rw load-ok
