-- ===== src/Peer/Search.antt =====
-- `search_photo` of peer.c: the photos with a keyword, and the memory that is used on the way.
use psis_project.Base.{
  ℕ, zero, suc, ◌+◌, ◌<◌, ◌≡◌, refl, sym, ◌∙◌, ap, subst, pos, Bool, true, false, none, List, [],
  ◌∷◌, ◌++◌, ◌==◌, ltb, if◌then◌else◌, length, arith, Bool-cases, inl, inr, ne→==,
}
use mathlib.Core.List.{append-nil, append_assoc}
use psis_project.Machine.{Run, ok, Cmd, pure, ◌>>=◌, ◌>>◌}
use psis_project.Machine.Returns
use psis_project.Machine.Returns.{Returns, returns}
use psis_project.Heap.{IsFresh, Ptr, null, Heap, Block, load-ok, free-ok, write}
use psis_project.Cells.{Cells, owns, first, owned-ne}
use psis_project.LinkedList.{Item, list_init}
use psis_project.LinkedList.Linked.{Linked, IsList, Linked-frame, Linked-write, not-owned_of_none}
use psis_project.LinkedList.Ends.{list_first-Dropped}
use psis_project.Base.{suc_ne_zero}
use psis_project.Peer.Matches.{
  found, ids, blank, Grown, list_insert-Fresh, regrown, emptied, length-ids, restored,
}
use psis_project.Text.{Text}
use psis_project.Msgs.{MessagePhoto}
use psis_project.Photos.{Data, set_data, search_keyword}
use psis_project.Peer.{
  Peer, Answers, int_sent, ids_sent, emit, lock_photos, unlock_photos, match_loop, array_loop,
  search_photo,
}

-- An answer that can be sent, and what follows it.
answered :
    (b : Bool) (m c : Cmd Peer (Unit {0})) (s : Peer) (r : Run Peer (Unit {0}))
    → b ≡ true
    → (m >> c) s ≡ r
    → ((if b then m else pure tt) >> (if b then c else pure tt)) s ≡ r
answered b m c s r e h = rw e h

module _ (fuel : ℕ) (net : Answers) (keyword : Text) where
  match_loop-found :
      (rounds : ℕ) (s : Peer) (xs ys : Cells Data) (p : Ptr) (blocks : ℕ → Block (Item Data))
      → Linked s.photos xs null
      → IsList s.photos p ys
      → IsFresh s.photos blocks
      → length xs < rounds
      → (h : Heap (Item Data)) × (q : Ptr) × (zs : Cells Data) × (match_loop fuel net rounds blocks
            (first xs null)
            keyword
            p
            (length ys)
            s
          ≡ ok (q, length zs) (record s { photos = h }))
        × Grown s.photos h q ys zs
        × (ids zs ≡ found keyword xs (ids ys))
  unfolding match_loop set_data
  match_loop-found zero s xs ys p blocks ch is fresh enough = absurd (omega arith)
  match_loop-found (suc rounds) s [] ys p blocks ch is fresh enough = (
    s.photos,
    p,
    ys,
    refl,
    record { list = is; same = λ a o. refl; new = λ a i o. cc; kept = λ a i. i },
    refl,
  )
  match_loop-found (suc rounds) s (c ∷ cs) ys p blocks (ne, e, ch) is fresh enough =
      elim (Bool-cases (search_keyword c.1 keyword)) [
        | inr miss ↦
            let (h, q, zs, run, grown, all) =
              match_loop-found rounds s cs ys p blocks ch is fresh (omega arith) in
            (h, q, zs, rw (ne→== c.0 null ne, load-ok s.photos ne e, miss) run, grown, rw miss all)
        | inl hit ↦
            let b = (blocks 0).address in
            let (g, run1, made) = list_insert-Fresh s.photos p ys (blank c.1.id) blocks is fresh in
            let out = not-owned_of_none s.photos cs null b ch (fresh.unused 0) in
            let ch1 = Linked-frame cs null ch (λ a o. made.same a (owned-ne cs a b o out)) in
            let s1 = record s { photos = g } in
            let (h, q, zs, run, grown, all) =
              match_loop-found rounds s1 cs ((b, blank c.1.id) ∷ ys) b (λ i. blocks (suc i)) ch1
                made.list made.fresh (omega arith) in
            let more : length ys + 1 ≡ suc (length ys) = omega arith in
            (
              h,
              q,
              zs,
              rw (ne→== c.0 null ne, load-ok s.photos ne e, hit, run1, more) run,
              regrown s.photos g h q b (blank c.1.id) ys zs (fresh.unused 0) made.same grown,
              rw hit all,
            )
      ]

  -- Taking the matches off their list again frees them, and nothing else is written to.
  array_loop-ids :
      (s : Peer) (p : Ptr) (ys : Cells Data)
      → IsList s.photos p ys
      → (h : Heap (Item Data)) × (array_loop fuel net (length ys) p s
          ≡ ok (ids ys) (record s { photos = h }))
        × ((a : Ptr) → h a ≡ (if owns ys a then none else s.photos a))
  unfolding array_loop
  array_loop-ids s p [] is = (s.photos, refl, λ a. refl)
  array_loop-ids s p (y ∷ ys) is =
      let ((aux, p'), g, run, (e, holds, list, same)) =
        Returns.outcome (list_first-Dropped s.photos p y ys is) in
      let (_, (ne, _, _), (out, _)) = is in
      let g1 = write g y.0 none in
      let s1 = record s { photos = g1 } in
      let list1 : IsList g1 p' ys = (list.0, Linked-write g ys null y.0 none list.1 out, list.2) in
      let (h, run1, all) = array_loop-ids s1 p' ys list1 in
      (
        h,
        rw (run, e, load-ok g ne holds, free-ok g ne holds, run1),
        emptied s.photos g h y ys same all,
      )

  -- What is sent after the number of matches.
  ids_sent-found :
      (s : Peer) (h : Heap (Item Data)) (q : Ptr) (zs : Cells Data)
      → Grown s.photos h q [] zs
      → (if length zs == 0
            then pure tt
            else (do id_photos ← array_loop fuel net (length zs) q; emit (ids_sent id_photos)))
          (record s { photos = h })
        ≡ ok tt (record s {
          out = s.out ++ (if length (ids zs) == 0 then [] else ids_sent (ids zs) ∷ []);
        })
  ids_sent-found s h q [] grown =
      ap (λ f. ok tt (record s { photos = f })) (restored s.photos h h q [] grown (λ a. refl))
      ∙ ap (λ o. ok tt (record s { out = o })) (sym (append-nil s.out))
  ids_sent-found s h q (z ∷ zs) grown =
      let (f, run, all) = array_loop-ids (record s { photos = h }) q (z ∷ zs) grown.list in
      rw (suc_ne_zero (length zs), suc_ne_zero (length (ids zs)), run)
        (ap (λ f. ok tt (record s { photos = f; out = s.out ++ ids_sent (ids (z ∷ zs)) ∷ [] }))
          (restored s.photos h f q (z ∷ zs) grown all))

-- `search_photo` sends the number of photos with the keyword, and then, if there are any, their
-- ids, the last photo of the list first; the list of photos and the memory are what they were,
-- since every node that the search takes is freed again; the mutex is free again. (The list is
-- well formed, the mutex was free, `malloc` gives new addresses, the keyword has fewer than 100
-- characters, the number can be sent, and the fuel exceeds the number of photos.)
pub search_photo-found :
    (fuel : ℕ) (net : Answers) (s : Peer) (xs : Cells Data) (blocks : ℕ → Block (Item Data))
    (msg : MessagePhoto)
    → IsList s.photos s.photo_list xs
    → s.photo_lock ≡ false
    → IsFresh s.photos blocks
    → length msg.buffer < 100
    → net.count_sent ≡ true
    → length xs < fuel
    → let all = found msg.buffer xs [] in
      search_photo fuel net blocks msg s
      ≡ ok tt (record s {
        photo_lock = false;
        out =
            s.out
            ++ int_sent (pos (length all)) ∷ (if length all == 0 then [] else ids_sent all ∷ []);
      })
unfolding search_photo lock_photos unlock_photos list_init
search_photo-found fuel net s xs blocks msg is unlocked fresh fits sent enough =
    let short : ltb (length msg.buffer) 100 ≡ true = ground arith in
    let start = subst (λ r. r ≡ s.photo_list) is.0 refl in
    let s1 = record s { photo_lock = true } in
    let (h, q, zs, run, grown, all) =
      match_loop-found fuel net msg.buffer fuel s1 xs [] null blocks is.1 (refl, tt, tt) fresh
        enough in
    let walk =
      subst
        (λ r.
          match_loop fuel net fuel blocks r msg.buffer null 0 s1
          ≡ ok (q, length zs) (record s1 { photos = h }))
        (sym is.0) run in
    let answer = λ (n : ℕ) (l : List ℕ).
      s.out ++ int_sent (pos n) ∷ (if length l == 0 then [] else ids_sent l ∷ []) in
    let done =
      append_assoc s.out (int_sent (pos (length zs)) ∷ [])
        (if length (ids zs) == 0 then [] else ids_sent (ids zs) ∷ [])
      ∙ ap (λ n. answer n (ids zs)) (sym (length-ids zs))
      ∙ ap (λ l. answer (length l) l) all in
    let rest =
      ids_sent-found fuel net msg.buffer
        (record s { photo_lock = false; out = s.out ++ int_sent (pos (length zs)) ∷ [] }) h q zs
        grown in
    rw (short, unlocked, walk)
      (answered net.count_sent _ _ _ _ sent
        (rest ∙ ap (λ o. ok tt (record s { photo_lock = false; out = o })) done))
