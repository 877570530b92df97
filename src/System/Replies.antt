-- ===== src/System/Replies.antt =====
-- What `send_all_photos` of peer.c sends for a new peer.
use psis_project.Base.{
  ℕ, zero, suc, ◌<◌, ◌≡◌, ◌≢◌, sym, ap, subst, pos, true, false, Option, some, none, List, [], ◌∷◌,
  ◌++◌, length, arith, ne→==,
}
use mathlib.Core.List.{append-nil, append_assoc}
use psis_project.Machine.{ok}
use psis_project.Heap.{Ptr, null, Block, load-ok}
use psis_project.Cells.{Cells, first}
use psis_project.LinkedList.{Item}
use psis_project.LinkedList.Linked.{Linked, IsList}
use psis_project.LinkedList.Walk.{list_count-length}
use psis_project.Text.{Text, decimal}
use psis_project.Msgs.{MessagePhoto}
use psis_project.Photos.{Data}
use psis_project.Peer.{Peer, Answers, Sent, Files, int_sent, lock_photos, unlock_photos}
use psis_project.Peer.Parts.{CanSend, replica_parts, send_replica-parts}
use psis_project.Peer.Transfer.{Upload, send_photos_loop, send_all_photos}
use psis_project.Peer.Replica.{SamePhoto, CanCopy}
use psis_project.Peer.Enter.{sent_or_exit}
use psis_project.System.Replication.{header_of, arriving}

-- What is sent of a row of photos, one entry for each photo.
abbrev pub replies : (Data → List ℕ) → Cells Data → List (List Sent)
replies content [] = []
replies content (c ∷ cs) = replica_parts (content c.1) c.1 ∷ replies content cs

abbrev pub concat : List (List Sent) → List Sent
concat [] = []
concat (r ∷ rs) = r ++ concat rs

-- The photos have files that are not empty, and can be sent and stored.
abbrev pub CanSendAll : Answers → Files → (Data → List ℕ) → Cells Data → Type 0
CanSendAll net files content [] = Unit {0}
CanSendAll net files content (c ∷ cs) =
    CanSend net files c.1 (content c.1)
    × CanCopy c.1 (content c.1)
    × (length (content c.1) ≢ 0)
    × CanSendAll net files content cs

-- What arrives of each of the replies, in turn.
abbrev pub copy_of : Block (Item Data) → Text → List Sent → Option MessagePhoto × Upload
copy_of block old reply = (some (header_of reply), arriving block old reply)

abbrev pub copies_of :
    (ℕ → Block (Item Data)) → Text → List (List Sent) → ℕ → Option MessagePhoto × Upload
copies_of blocks old [] i = (none, arriving (blocks i) old [])
copies_of blocks old (r ∷ rs) zero = copy_of (blocks 0) old r
copies_of blocks old (r ∷ rs) (suc i) = copies_of (λ j. blocks (suc j)) old rs i

-- The photos `xs` have been put in front of `ys`, one after the other, each as its own copy.
abbrev pub Copied : Cells Data → Cells Data → Cells Data → Type 0
Copied [] ys zs = zs ≡ ys
Copied (c ∷ cs) ys zs = (a : Ptr) × (k' : Data) × SamePhoto c.1 k' × Copied cs ((a, k') ∷ ys) zs

-- The files of the photos are the same.
abbrev pub SameFiles : Cells Data → Files → Files → Type 0
SameFiles [] files files' = Unit {0}
SameFiles (c ∷ cs) files files' =
    (files' (decimal c.1.id) ≡ files (decimal c.1.id)) × SameFiles cs files files'

module _ (fuel : ℕ) (net : Answers) (content : Data → List ℕ) where
  send_photos_loop-replies :
      (rounds : ℕ) (s : Peer) (xs : Cells Data)
      → Linked s.photos xs null
      → CanSendAll net s.files content xs
      → length xs < rounds
      → send_photos_loop fuel net rounds (first xs null) s
        ≡ ok tt (record s { out = s.out ++ concat (replies content xs) })
  unfolding send_photos_loop
  send_photos_loop-replies zero s xs ch can enough = absurd (omega arith)
  send_photos_loop-replies (suc rounds) s [] ch can enough =
      ap (λ o. ok tt (record s { out = o })) (sym (append-nil s.out))
  send_photos_loop-replies (suc rounds) s (c ∷ cs) (ne, holds, ch) (can, _, _, rest) enough =
      let parts = replica_parts (content c.1) c.1 in
      let s1 = record s { out = s.out ++ parts } in
      rw
        (
          ne→== c.0 null ne,
          load-ok s.photos ne holds,
          send_replica-parts fuel net s c.1 (content c.1) can,
          send_photos_loop-replies rounds s1 cs ch rest (omega arith),
        )
        (ap (λ o. ok tt (record s { out = o })) (append_assoc s.out parts _))

  -- The number of photos goes first, and then the replies.
  pub send_all_photos-replies :
      (s : Peer) (xs : Cells Data)
      → IsList s.photos s.photo_list xs
      → s.photo_lock ≡ false
      → CanSendAll net s.files content xs
      → net.count_sent ≡ true
      → length xs < fuel
      → send_all_photos fuel net s
        ≡ ok tt (record s {
          photo_lock = false;
          out = s.out ++ int_sent (pos (length xs)) ∷ concat (replies content xs);
        })
  unfolding send_all_photos lock_photos unlock_photos
  send_all_photos-replies s xs is free can sent enough =
      let s1 = record s { photo_lock = true } in
      let count = int_sent (pos (length xs)) in
      let s2 = record s1 { out = s.out ++ count ∷ [] } in
      let sends =
        subst
          (λ r.
            send_photos_loop fuel net fuel r s2
            ≡ ok tt (record s2 { out = s2.out ++ concat (replies content xs) }))
          (sym is.0) (send_photos_loop-replies fuel s2 xs is.1 can enough) in
      rw
        (
          free,
          list_count-length fuel s.photos s.photo_list xs is (omega arith),
          sent_or_exit net.count_sent count s1 sent,
          sends,
        )
        (ap (λ o. ok tt (record s { photo_lock = false; out = o }))
          (append_assoc s.out (count ∷ []) _))
