-- ===== src/Peer/Replica.antt =====
-- A photo on its way from one peer to another.
use psis_project.Base.{
  ne→==, ℕ, zero, suc, ap, ◌∙◌, ◌*◌, ◌^◌, ◌<◌, ◌≤◌, ◌≡◌, ◌≢◌, refl, sym, ℤ, pos, true, false, some,
  none, List, [], ◌∷◌, ◌++◌, ltb, length, arith, inl, inr,
}
use mathlib.Core.List.{append-nil}
use psis_project.Machine.{ok, Cmd}
use psis_project.Machine.Returns
use psis_project.Heap.{Ptr, null, Heap, Block}
use psis_project.Cells.{Cells}
use psis_project.LinkedList.{Item}
use psis_project.LinkedList.Linked.{IsList}
use psis_project.LinkedList.Ends.{list_insert-Inserted}
use psis_project.Text.{Text, decimal, print_photo, int_of}
use psis_project.Text.RoundTrip.{IsField}
use psis_project.Text.Photo.{scan_photo-print_photo}
use psis_project.Msgs.{MessagePhoto}
use psis_project.Photos.{Data, set_data, words, join_words, print_loop}
use psis_project.Photos.Words.{Sendable, split_words-join_words, store_words-words}
use psis_project.Peer.{Peer, Answers, put_file, lock_photos, unlock_photos}
use psis_project.Peer.Keywords.{print_photos-free}
use psis_project.Sockets.{all_received, bytes}
use psis_project.Sockets.Whole.{take-all, fill_buffer-sent}
use psis_project.Peer.Transfer.{Upload, receive_keywords, insert_photo, save_photo, add_replica}

-- The new photo stands in front, and only its node is written to.
pub record Stored (s h : Heap (Item Data)) (p a : Ptr) (k : Data) (xs : Cells Data) : Type 0 where
  pub list : IsList h p ((a, k) ∷ xs)
  pub same : (b : Ptr) → b ≢ a → h b ≡ s b

pub insert_photo-inserted :
    (s : Peer) (xs : Cells Data) (block : Block (Item Data)) (k : Data)
    → IsList s.photos s.photo_list xs
    → s.photo_lock ≡ false
    → block.address ≢ null
    → s.photos block.address ≡ none
    → (h : Heap (Item Data)) × (p : Ptr) × (insert_photo block k s
        ≡ ok tt (record s { photos = h; photo_list = p; photo_lock = false }))
      × Stored s.photos h p block.address k xs
unfolding insert_photo lock_photos unlock_photos
insert_photo-inserted s xs block k is free ne unused =
    elim (list_insert-Inserted s.photos s.photo_list xs block k is unused) [
      | inl (none_left, _) ↦ absurd (ne none_left)
      | inr inserted ↦
          let (p, h, run, (_, list, same)) = Returns.outcome inserted in
          (
            h,
            p,
            rw (free, run),
            record {
              list = list;
              same = λ b other. same b (rw (ne→== b block.address other) refl);
            },
          )
    ]

length-words : (left i : ℕ) (keywords : ℕ → Text) → length (print_loop left i keywords) ≡ left
length-words zero i keywords = refl
length-words (suc left) i keywords = omega (arith, length-words left (suc i) keywords)

-- The keywords that arrive are the ones that were sent.
receive_keywords-words :
    (n : ℕ) (keywords : ℕ → Text) (blank : Data) (s : Peer)
    → n ≤ 20
    → Sendable (print_loop n 0 keywords)
    → blank.n_keywords ≡ 0
    → length (join_words (print_loop n 0 keywords)) ≤ n * 100
    → (K : Data) × (receive_keywords
          (pos n)
          (all_received (n * 100, join_words (print_loop n 0 keywords)))
          blank
          s
        ≡ ok K s)
      × (K.name ≡ blank.name)
      × (K.id ≡ blank.id)
      × (words K ≡ words blank ++ print_loop n 0 keywords)
unfolding receive_keywords
receive_keywords-words zero keywords blank s few send none_yet fits =
    (blank, refl, refl, refl, sym (append-nil (words blank)))
receive_keywords-words (suc n) keywords blank s few send none_yet fits =
    let ws = print_loop (suc n) 0 keywords in
    let size = length-words (suc n) 0 keywords in
    let (K, run, name, id, _, all) = store_words-words ws blank s send (omega (arith, size)) in
    let room : ltb 20 (suc n) ≡ false = ground arith in
    let enough : ltb (suc n * 100) (suc n * 100) ≡ false = ground arith in
    let whole = take-all (suc n * 100) (join_words ws) fits in
    (K, rw (room, enough, whole, split_words-join_words ws send) run, name, id, all)

-- The photo can be told from its copy only by keywords that it does not have.
pub record SamePhoto (k k' : Data) : Type 0 where
  pub name : k'.name ≡ k.name
  pub id : k'.id ≡ k.id
  pub keywords : words k' ≡ words k

-- What a replica of the photo `k` with this content brings with it.
abbrev pub upload_of : Block (Item Data) → Text → Data → List ℕ → Upload
upload_of block old k content = record {
  block = block;
  name = old;
  keywords = all_received (k.n_keywords * 100, join_words (words k));
  photo = bytes content ∷ [];
}

-- The name can be written in front of a comma, and all numbers fit.
pub record CanCopy (k : Data) (content : List ℕ) : Type 0 where
  pub named : k.name ≢ []
  pub field : IsField k.name
  pub name_fits : length k.name < 100
  pub size_fits : length content < 2 ^ 31
  pub some_bytes : length content ≢ 0
  pub keywords_fit : length (join_words (words k)) ≤ k.n_keywords * 100
  pub id_fits : k.id < 2 ^ 32
  pub few : k.n_keywords ≤ 20
  pub sendable : Sendable (words k)

module _ (fuel : ℕ) (net : Answers) where
  pub save_photo-saved :
      (s : Peer) (id : ℕ) (content : List ℕ)
      → net.file_opened ≡ true
      → length content ≢ 0
      → length content < 2 ^ 31
      → save_photo fuel net id (length content) (bytes content ∷ []) s
        ≡ ok tt (record s { files = put_file s.files (decimal id) (some content) })
  unfolding save_photo
  save_photo-saved s id [] opened some_bytes small = absurd (some_bytes refl)
  save_photo-saved s id (b ∷ bs) opened some_bytes small =
      ap (λ (c : Cmd Peer (Unit {0})). c s) (fill_buffer-sent (length (b ∷ bs)) b bs _ refl small)
      ∙ rw opened refl

  pub add_replica-SamePhoto :
      (s : Peer) (xs : Cells Data) (k : Data) (content : List ℕ) (block : Block (Item Data))
      (old : Text) (type : ℤ)
      → IsList s.photos s.photo_list xs
      → s.photo_lock ≡ false
      → block.address ≢ null
      → s.photos block.address ≡ none
      → net.file_opened ≡ true
      → CanCopy k content
      → suc (length xs) < fuel
      → let message : MessagePhoto = record {
        buffer = print_photo k.name (length content) k.id k.n_keywords;
        type = type;
      } in
        (k' : Data) × (h : Heap (Item Data)) × (p : Ptr) × (add_replica fuel net
            (upload_of block old k content)
            message
            s
          ≡ ok (int_of k.id) (record s {
            photos = h;
            photo_list = p;
            photo_lock = false;
            files = put_file s.files (decimal k.id) (some content);
          }))
        × Stored s.photos h p block.address k' xs
        × SamePhoto k k'
  unfolding add_replica set_data
  add_replica-SamePhoto s xs k content block old type is free ne unused opened can enough =
      let header =
        scan_photo-print_photo k.name (length content) k.id k.n_keywords old can.named can.field
          (omega (arith, can.size_fits)) can.id_fits (omega (arith, can.few)) in
      let blank : Data = record { name = k.name; id = k.id; keyword = λ i. []; n_keywords = 0 } in
      let (k', stored, name, id, all) =
        receive_keywords-words k.n_keywords k.keyword blank s can.few can.sendable refl
          can.keywords_fit in
      let (h, p, inserted, new) = insert_photo-inserted s xs block k' is free ne unused in
      let short : ltb (length k.name) 100 ≡ true = ground (arith, can.name_fits) in
      let s0 = record s { photos = h; photo_list = p; photo_lock = false } in
      let s1 = record s {
        photos = h;
        photo_list = p;
        photo_lock = false;
        files = put_file s.files (decimal k.id) (some content);
      } in
      (
        k',
        h,
        p,
        rw (
          header,
          short,
          stored,
          inserted,
          save_photo-saved s0 k.id content opened can.some_bytes can.size_fits,
          print_photos-free fuel net s1 ((block.address, k') ∷ xs) new.list refl enough,
        ),
        new,
        record { name = name; id = id; keywords = all },
      )
