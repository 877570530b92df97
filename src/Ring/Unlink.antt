-- ===== src/Ring/Unlink.antt =====
-- The three places of ring_list.c that take one node out of a ring: `ring_first`, and the two
-- branches of `ring_remove`.
use psis_project.Base.{◌≡◌, ◌≢◌, refl, ◌∙◌, sym, false, some, none, [], ◌∷◌, arith, ne→==, eq→==}
use psis_project.Machine.Returns
use psis_project.Machine.Returns.{Returns, returns}
use psis_project.Heap.{Ptr, null, Heap, write, write_self, write_other, load-ok, modify-ok, free-ok}
use psis_project.Machine.{pure, ◌>>◌}
use psis_project.Ring.{Item, item, set_next, set_prev, drop_root, ring_first, remove_root, unlink}
use psis_project.Cells.{Cells, owns, SameOutside, first, last, last-owned, owned-ne}
use psis_project.Ring.Chain.{Circle, IsRing}
use psis_project.Ring.Circle.{Chain-write, Chain-write-first, Chain-last, IsRing-write}

module _ {D : Type 0} where
  -- The ring `zs` is left, and nothing but its nodes and `b` was written to.
  abbrev pub Left : Heap (Item D) → Ptr × D → Cells D → Heap (Item D) → Type 0
  Left h b zs g = Circle g zs × SameOutside (b ∷ zs) h g

  abbrev pub Freed : Heap (Item D) → Ptr × D → Cells D → Heap (Item D) → Type 0
  Freed h b zs g = (g b.0 ≡ none) × Left h b zs g

  -- The heap in which the node behind the root points back to the last one.
  abbrev back : Heap (Item D) → Ptr × D → Ptr × D → Cells D → Heap (Item D)
  back h b c cs = write h c.0 (some (item c.1 (first cs b.0) (last c.0 cs)))

  -- What is known of `back h b c cs`, and once the last node points on to `c`.
  bypass :
      (h : Heap (Item D)) (b c : Ptr × D) (cs : Cells D)
      → Circle h (b ∷ c ∷ cs)
      → let h1 = back h b c cs in
        (last c.0 cs ≢ null)
        × (n : Item D) × (h1 (last c.0 cs) ≡ some n)
        × Circle (write h1 (last c.0 cs) (some (record n { next = c.0 }))) (c ∷ cs)
        × SameOutside (c ∷ cs) h (write h1 (last c.0 cs) (some (record n { next = c.0 })))
  bypass h b c cs ((nb, eb, ch), (out, dist)) =
      let l = last c.0 cs in
      let h1 = back h b c cs in
      let ch1 = Chain-write-first h b.0 c cs b.0 l ch dist in
      let (nl, n, lh, _, relink) = Chain-last h1 l c cs b.0 ch1 dist in
      (
        nl,
        n,
        lh,
        (relink c.0, dist),
        λ a o.
            write_other h1 l a _ (λ q. owned-ne (c ∷ cs) l a (last-owned c cs) o (sym q))
            ∙ write_other h c.0 a _ (λ q. owned-ne (c ∷ cs) c.0 a (ground arith) o (sym q)),
      )

  module _ (h : Heap (Item D)) (b c : Ptr × D) (cs : Cells D) (circle : Circle h (b ∷ c ∷ cs)) where
    drop_root-Left :
        Returns
          (λ root' g. (root' ≡ c.0) × Circle g (c ∷ cs) × SameOutside (c ∷ cs) h g)
          (drop_root b.0 h)
    unfolding drop_root
    drop_root-Left =
        let ((nb, eb, ch), (out, dist)) = circle in
        let (nl, n, lh, ring, same) = bypass h b c cs circle in
        let apart : c.0 ≢ b.0 = owned-ne (c ∷ cs) c.0 b.0 (ground arith) out in
        rw
          (
            load-ok h nb eb,
            ne→== c.0 b.0 apart,
            modify-ok h ch.0 ch.1 _,
            load-ok (back h b c cs) nb (write_other h c.0 b.0 _ (λ q. apart (sym q)) ∙ eb),
            modify-ok (back h b c cs) nl lh _,
          )
          (returns (refl, ring, same))

    pub remove_root-Freed :
        Returns
          (λ (n, root') g. (n ≡ 1) × (root' ≡ c.0) × Freed h b (c ∷ cs) g)
          (remove_root b.0 c.0 h)
    unfolding remove_root
    remove_root-Freed =
        let ((nb, eb, ch), (out, dist)) = circle in
        let (nl, n, lh, (chain, _), same) = bypass h b c cs circle in
        let l = last c.0 cs in
        let apart : c.0 ≢ b.0 = owned-ne (c ∷ cs) c.0 b.0 (ground arith) out in
        let h1 = back h b c cs in
        let h2 = write h1 l (some (record n { next = c.0 })) in
        let eb1 =
          write_other h c.0 b.0 (some (item c.1 (first cs b.0) l)) (λ q. apart (sym q)) ∙ eb in
        rw
          (
            ne→== b.0 c.0 (λ q. apart (sym q)),
            load-ok h nb eb,
            load-ok h nb eb,
            modify-ok h ch.0 ch.1 _,
            load-ok h1 nb eb1,
            modify-ok h1 nl lh _,
            free-ok h2 nb (same b.0 out ∙ eb),
          )
          (returns (
            refl,
            refl,
            (
              write_self h2 b.0 none,
              (
                (Chain-write h2 l (c ∷ cs) c.0 b.0 none chain out, dist),
                λ a o. write_other h2 b.0 a none (ground arith) ∙ same a (ground arith),
              ),
            ),
          ))

    pub unlink-Freed : Returns (λ n g. (n ≡ 1) × Freed h b (c ∷ cs) g) (unlink (last c.0 cs) b.0 h)
    unfolding unlink
    unlink-Freed =
        let ((nb, eb, ch), (out, dist)) = circle in
        let l = last c.0 cs in
        let (nl, n, lh, _, relink) = Chain-last h b.0 c cs b.0 ch dist in
        let apart : l ≢ b.0 = owned-ne (c ∷ cs) l b.0 (last-owned c cs) out in
        let h1 = write h l (some (record n { next = c.0 })) in
        let ch1 = relink c.0 in
        let eb1 = write_other h l b.0 (some (record n { next = c.0 })) (λ q. apart (sym q)) ∙ eb in
        let h2 = write h1 c.0 (some (item c.1 (first cs c.0) l)) in
        let eb2 =
          write_other h1 c.0 b.0 (some (item c.1 (first cs c.0) l))
            (λ q. owned-ne (c ∷ cs) c.0 b.0 (ground arith) out (sym q))
          ∙ eb1 in
        rw
          (
            load-ok h nb eb,
            modify-ok h nl lh _,
            load-ok h1 nb eb1,
            modify-ok h1 ch1.0 ch1.1 _,
            free-ok h2 nb eb2,
          )
          (returns (
            refl,
            (
              write_self h2 b.0 none,
              (
                (
                  Chain-write h2 l (c ∷ cs) c.0 b.0 none
                      (Chain-write-first h1 b.0 c cs c.0 l ch1 dist) out,
                  dist,
                ),
                λ a o.
                    write_other h2 b.0 a none (ground arith)
                    ∙ write_other h1 c.0 a _ (ground arith)
                    ∙ write_other h l a _
                        (λ q. owned-ne (c ∷ cs) l a (last-owned c cs) (ground arith) (sym q)),
              ),
            ),
          ))

  -- `ring_first` on a ring that is not empty returns the root's node, which points nowhere; the
  -- rest is a ring in the same order.
  abbrev pub Dropped : Heap (Item D) → Ptr × D → Cells D → Ptr × Ptr → Heap (Item D) → Type 0
  Dropped h b bs (out, root') g =
      (out ≡ b.0)
      × (g b.0 ≡ some (item b.1 null null))
      × IsRing g root' bs
      × SameOutside (b ∷ bs) h g

  -- The end of `ring_first`: the node that was taken out loses its links.
  clear-Dropped :
      (h g : Heap (Item D)) (root' : Ptr) (b : Ptr × D) (bs : Cells D) (n p : Ptr)
      → IsRing g root' bs
      → b.0 ≢ null
      → owns bs b.0 ≡ false
      → g b.0 ≡ some (item b.1 n p)
      → SameOutside (b ∷ bs) h g
      → Returns (Dropped h b bs) ((do set_next b.0 null; set_prev b.0 null; pure (b.0, root')) g)
  clear-Dropped h g root' b bs n p ring ne out eb same =
      let g1 = write g b.0 (some (item b.1 null p)) in
      rw (modify-ok g ne eb _, modify-ok g1 ne (write_self g b.0 _) _)
        (returns (
          refl,
          write_self g1 b.0 _,
          IsRing-write g1 root' bs b.0 (some (item b.1 null null))
              (IsRing-write g root' bs b.0 (some (item b.1 null p)) ring out) out,
          λ a o.
              write_other g1 b.0 a _ (ground arith)
              ∙ write_other g b.0 a _ (ground arith)
              ∙ same a o,
        ))

  -- `ring_first` on a well-formed ring that is not empty takes the first node out and returns
  -- it with both links cleared; the ring keeps the others in their order, and nothing else is
  -- written to.
  pub ring_first-Dropped :
      (h : Heap (Item D)) (root : Ptr) (b : Ptr × D) (bs : Cells D)
      → IsRing h root (b ∷ bs)
      → Returns (Dropped h b bs) (ring_first root h)
  unfolding ring_first
  ring_first-Dropped h root b [] (e, ((nb, eb, _), _)) =
      rw (e, ne→== b.0 null nb, load-ok h nb eb, eq→== b.0 b.0 refl)
        (clear-Dropped h h null b [] b.0 b.0 (refl, tt) nb refl eb (λ a o. refl))
  ring_first-Dropped h root b (c ∷ cs) (e, circle) =
      let ((nb, eb, _), (out, _)) = circle in
      rw (e, ne→== b.0 null nb)
        (Returns.bind (drop_root-Left h b c cs circle) λ root' g (er, ring, same).
          clear-Dropped h g root' b (c ∷ cs) c.0 (last c.0 cs) (er, ring) nb out (same b.0 out ∙ eb)
            (λ a o. same a (ground arith)))
