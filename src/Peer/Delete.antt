-- ===== src/Peer/Delete.antt =====
-- `delete_photo` of peer.c, and what its message says.
use psis_project.Base.{
  none, ℕ, ◌<◌, ◌≡◌, refl, pos, false, if◌then◌else◌, length, arith, Bool-cases, inl, inr,
}
use psis_project.Machine.{ok}
use psis_project.Machine.Returns
use psis_project.Heap.{Ptr, Heap}
use psis_project.Cells.{Cells, contains, erase, length-erase-le}
use psis_project.LinkedList.{Item}
use psis_project.LinkedList.Linked.{IsList}
use psis_project.LinkedList.Remove.{list_remove-Removed}
use psis_project.Text.{decimal, scan_id}
use psis_project.Msgs.{MessagePhoto}
use psis_project.Photos.{Data, equal_data}
use psis_project.Peer.{Peer, Answers, put_file, key, lock_photos, unlock_photos, delete_photo}
use psis_project.Peer.Keywords.{print_photos-free}

module _ (fuel : ℕ) (net : Answers) where
  -- `delete_photo` for the copy of a deletion that another peer sends (type 11): the photo
  -- with the id of the message is taken out of the list and the file with its id as name is
  -- deleted; without such a photo nothing changes. Nothing is answered or passed on, and the
  -- mutex is free again. (The list is well formed, the mutex was free, and the fuel exceeds
  -- the number of photos.)
  pub delete_photo-replicated :
      (s : Peer) (xs : Cells Data) (old : ℕ) (msg : MessagePhoto)
      → IsList s.photos s.photo_list xs
      → s.photo_lock ≡ false
      → length xs < fuel
      → msg.type ≡ pos 11
      → let id = scan_id msg.buffer old in
        (h : Heap (Item Data)) × (p : Ptr) × (delete_photo fuel net old msg s
          ≡ ok tt (record s {
            photos = h;
            photo_list = p;
            photo_lock = false;
            files =
                (if contains equal_data (key id) xs
                  then put_file s.files (decimal id) none
                  else s.files);
          }))
        × IsList h p (erase equal_data (key id) xs)
  unfolding delete_photo lock_photos unlock_photos
  delete_photo-replicated s xs old msg is free enough copied =
      let id = scan_id msg.buffer old in
      let ys = erase equal_data (key id) xs in
      let ((found, p), h, run, (count, list, _, _)) =
        Returns.outcome (
          list_remove-Removed equal_data fuel s.photos s.photo_list xs (key id) is (omega arith)) in
      let few : length ys < fuel = omega (arith, length-erase-le equal_data (key id) xs) in
      elim (Bool-cases (contains equal_data (key id) xs)) [
        | inl there ↦
            let s1 = record s {
              photos = h;
              photo_list = p;
              photo_lock = false;
              files = put_file s.files (decimal id) none;
            } in
            (
              h,
              p,
              rw (free, run, count, there, print_photos-free fuel net s1 ys list refl few, copied),
              list,
            )
        | inr absent ↦ (h, p, rw (free, run, count, absent, copied), list)
      ]
