-- ===== src/Ring/Concat.antt =====
-- `rings_concatenate`.
use psis_project.Base.{◌≡◌, refl, ◌∙◌, sym, true, some, [], ◌∷◌, ◌++◌, subst, ne→==}
use mathlib.Core.List.{append-nil}
use psis_project.Machine.Returns.{Returns, returns}
use psis_project.Heap.{Ptr, null, Heap, write, write_other, load-ok, modify-ok}
use psis_project.Ring.{Item, item, rings_concatenate}
use psis_project.Cells.{
  Cells, owns, Apart, Apart-sym, SameOutside, first, last, last-append, last-owned, first-owned,
  owns_left, owns_right, owned-ne, Distinct-append,
}
use psis_project.Ring.Chain.{Chain, IsRing, Chain-join}
use psis_project.Ring.Circle.{Chain-write, Chain-write-first, Chain-last}

module _ {D : Type 0} where
  abbrev pub Joined : Heap (Item D) → Cells D → Cells D → Ptr → Heap (Item D) → Type 0
  Joined h xs ys root g = IsRing g root (xs ++ ys) × SameOutside (xs ++ ys) h g

  -- `rings_concatenate` makes one well-formed ring of two that share no node, the nodes of the
  -- second behind those of the first, and returns its root; it writes to their nodes only.
  pub rings_concatenate-append :
      (h : Heap (Item D)) (list1 list2 : Ptr) (xs ys : Cells D)
      → IsRing h list1 xs
      → IsRing h list2 ys
      → Apart xs ys
      → Returns (Joined h xs ys) (rings_concatenate list1 list2 h)
  unfolding rings_concatenate
  rings_concatenate-append h p q [] ys (e, _) (e', ring) _ =
      rw e (returns ((e', ring), λ a o. refl))
  rings_concatenate-append h p q (c ∷ cs) [] (e, ring) (e', _) _ =
      rw (e, e', ne→== c.0 null ring.0.0) (returns (rw append-nil ((refl, ring), λ a o. refl)))
  rings_concatenate-append h p q (c ∷ cs) (d ∷ ds) (e, (chx, dx)) (e', (chy, dy)) xy =
      let yx = Apart-sym (c ∷ cs) (d ∷ ds) xy in
      let lx = last c.0 cs in
      let ly = last d.0 ds in
      let (ny, n, hy, _, relink_y) = Chain-last h ly d ds d.0 chy dy in
      let h1 = write h ly (some (record n { next = c.0 })) in
      let x1 =
        Chain-write h lx (c ∷ cs) c.0 ly (some (record n { next = c.0 })) chx
          (yx ly (last-owned d ds)) in
      let (nx, m, hx, _, relink_x) = Chain-last h1 lx c cs c.0 x1 dx in
      let h2 = write h1 lx (some (record m { next = d.0 })) in
      let x2 = relink_x d.0 in
      let y2 =
        Chain-write h1 ly (d ∷ ds) c.0 lx (some (record m { next = d.0 })) (relink_y c.0)
          (xy lx (last-owned c cs)) in
      let h3 = write h2 c.0 (some (item c.1 (first cs d.0) ly)) in
      let x3 = Chain-write-first h2 lx c cs d.0 ly x2 dx in
      let y3 =
        Chain-write h2 ly (d ∷ ds) c.0 c.0 (some (item c.1 (first cs d.0) ly)) y2
          (xy c.0 (first-owned c cs)) in
      let h4 = write h3 d.0 (some (item d.1 (first ds c.0) lx)) in
      let x4 =
        Chain-write h3 ly (c ∷ cs) d.0 d.0 (some (item d.1 (first ds c.0) lx)) x3
          (yx d.0 (first-owned d ds)) in
      let y4 = Chain-write-first h3 ly d ds c.0 lx y3 dy in
      rw
        (
          e,
          e',
          ne→== c.0 null chx.0,
          ne→== d.0 null chy.0,
          load-ok h chy.0 chy.1,
          modify-ok h ny hy _,
          load-ok h1 x1.0 x1.1,
          modify-ok h1 nx hx _,
          load-ok h2 x2.0 x2.1,
          load-ok h2 y2.0 y2.1,
          modify-ok h2 x2.0 x2.1 _,
          modify-ok h3 y3.0 y3.1 _,
        )
        (returns (
          (
            refl,
            (
              subst (λ b. Chain h4 b (c ∷ cs ++ d ∷ ds) c.0) (sym (last-append c.0 cs (d ∷ ds)))
                  (Chain-join h4 ly (c ∷ cs) (d ∷ ds) c.0 x4 y4),
              Distinct-append (c ∷ cs) (d ∷ ds) dx dy xy,
            ),
          ),
          λ a o.
              let away = λ (r : Ptr) (i : owns (c ∷ cs ++ d ∷ ds) r ≡ true) (j : a ≡ r).
                owned-ne (c ∷ cs ++ d ∷ ds) r a i o (sym j) in
              write_other h3 d.0 a _
                (away d.0 (owns_right (c ∷ cs) (d ∷ ds) d.0 (first-owned d ds)))
              ∙ write_other h2 c.0 a _ (away c.0 (first-owned c (cs ++ d ∷ ds)))
              ∙ write_other h1 lx a _ (away lx (owns_left (c ∷ cs) (d ∷ ds) lx (last-owned c cs)))
              ∙ write_other h ly a _ (away ly (owns_right (c ∷ cs) (d ∷ ds) ly (last-owned d ds))),
        ))
