-- ===== src/System/Exchange.antt =====
-- A client and a peer over one connection: the client's message goes to the handler of the peer, and
-- what the handler sends is what the functions of the library receive.
use psis_project.Base.{
  ℕ, zero, suc, ◌+◌, ◌/◌, ◌%◌, ◌≤◌, ◌<◌, ◌^◌, ◌≡◌, ◌≢◌, refl, ap, subst, length-append, ℤ, pos,
  true, false, Option, some, none, List, [], ◌∷◌, ◌++◌, ◌==◌, ltb, if◌then◌else◌, length, arith,
  ◌⊎◌, Bool-cases, inl, inr, ne→==,
}
use mathlib.Core.List.{append_assoc}
use psis_project.Machine.{ok, Cmd}
use psis_project.Heap.{Ptr, null, Heap, load-ok}
use psis_project.Cells.{Cells, first, find}
use psis_project.LinkedList.{Item, item}
use psis_project.LinkedList.Linked.{Linked, IsList}
use psis_project.LinkedList.Walk.{list_search-find}
use psis_project.Text.{Text, decimal_loop, decimal, scan_id}
use psis_project.Text.RoundTrip.{scan_unsigned-decimal}
use psis_project.Msgs.{MessagePhoto}
use psis_project.Sockets.{RecvAll, Received, bytes, no_bytes, all_closed, all_received}
use psis_project.Photos.{Data, equal_data, set_data}
use psis_project.Peer.{
  Peer, Answers, Sent, int_sent, long_sent, text_sent, bytes_sent, ids_sent, key, lock_photos,
  unlock_photos, send_photo_name,
}
use psis_project.Peer.Matches.{found}
use psis_project.Library.{Output, to_peer, Recv, recv_closed, received, stream_and_send_photo}
use psis_project.Sockets.Whole.{fill_buffer-sent}
use psis_project.Library.Photos.{receive_name, gallery_get_photo_name}

-- What the client's calls receive of what a handler sent.
abbrev pub number_received : List Sent → Recv ℤ
number_received (int_sent n ∷ rest) = received n
number_received (long_sent n ∷ rest) = received (pos n)
number_received other = recv_closed

abbrev pub size_received : List Sent → RecvAll ℤ
size_received (int_sent n ∷ rest) = all_received n
size_received other = all_closed

abbrev pub ids_received : List Sent → Recv (List ℕ)
ids_received (first ∷ ids_sent ids ∷ rest) = received ids
ids_received other = recv_closed

-- A text comes with its NUL.
abbrev pub name_received : List Sent → List Received
name_received (first ∷ text_sent name ∷ rest) = bytes (name ++ 0 ∷ []) ∷ []
name_received other = no_bytes

abbrev pub photo_received : List Sent → List Received
photo_received (first ∷ bytes_sent photo ∷ rest) = bytes photo ∷ []
photo_received other = no_bytes

-- The first photo with the id.
abbrev pub lookup : ℕ → Cells Data → Option Data
lookup id [] = none
lookup id (c ∷ cs) = if c.1.id == id then some c.1 else lookup id cs

abbrev request : Text → ℤ → MessagePhoto
request buffer type = record { buffer = buffer; type = type }

length-decimal_loop :
    (fuel n : ℕ) (rest : Text) → length (decimal_loop fuel n rest) ≤ fuel + length rest
unfolding decimal_loop
length-decimal_loop zero n rest = omega arith
length-decimal_loop (suc fuel) n rest = elim (Bool-cases (ltb n 10)) [
  | inl small ↦ rw small (omega arith)
  | inr large ↦ rw large (omega (arith, length-decimal_loop fuel (n / 10) ((n % 10 + b'0') ∷ rest)))
]

-- An id fits the message.
decimal-fits : (id : ℕ) → ltb (length (decimal id)) 100 ≡ true
unfolding decimal
decimal-fits id = let short = length-decimal_loop 10 id [] in ground arith

scan_id-decimal : (id old : ℕ) → id < 2 ^ 32 → scan_id (decimal id) old ≡ id
unfolding scan_id
scan_id-decimal id old small = rw (scan_id, scan_unsigned-decimal id small)

-- What `list_search` finds, and what is there.
abbrev Present : Heap (Item Data) → Cells Data → ℕ → Type 0
Present h xs id =
    (k : Data) × (n : Ptr) × (find equal_data (key id) xs ≢ null)
    × (h (find equal_data (key id) xs) ≡ some (item k n))
    × (lookup id xs ≡ some k)
    × (k.id ≡ id)

lookup-cases :
    (h : Heap (Item Data)) (xs : Cells Data) (id : ℕ)
    → Linked h xs null
    → (find equal_data (key id) xs ≡ null) × (lookup id xs ≡ none) ⊎ Present h xs id
lookup-cases h [] id ch = inl (refl, refl)
lookup-cases h (c ∷ cs) id (ne, holds, ch) = elim (Bool-cases (c.1.id == id)) [
  | inl hit ↦
      let same : c.1.id ≡ id = ground arith in
      inr (c.1, first cs null, rw hit ne, rw hit holds, rw hit refl, same)
  | inr miss ↦ elim (lookup-cases h cs id ch) [
    | inl (none_found, nothing) ↦ inl (rw (miss, none_found) refl, rw (miss, nothing) refl)
    | inr (k, n, found, there, is, same) ↦
        inr (k, n, rw miss found, rw miss there, rw (miss, is) refl, same)
  ]
]

-- Every name fits the 100 characters of its array, with its NUL.
abbrev pub NamesFit : Cells Data → Type 0
NamesFit [] = Unit {0}
NamesFit (c ∷ cs) = (length c.1.name < 100) × NamesFit cs

abbrev name_or_empty : Option Data → Text
name_or_empty none = []
name_or_empty (some k) = k.name

lookup-fits :
    (id : ℕ) (xs : Cells Data) (k : Data)
    → NamesFit xs
    → lookup id xs ≡ some k
    → length k.name < 100
lookup-fits id [] k fit e = cc
lookup-fits id (c ∷ cs) k (here, fit) e = elim (Bool-cases (c.1.id == id)) [
  | inl hit ↦
      let same : some c.1 ≡ some k = rw hit at e in
      subst (λ o. length (name_or_empty o) < 100) same here
  | inr miss ↦ lookup-fits id cs k fit (rw miss at e)
]

-- The array of the announced size is filled.
name_taken :
    (name : Text) (out : List Output)
    → length name < 100
    → receive_name (suc (length name)) (bytes (name ++ 0 ∷ []) ∷ []) out
      ≡ ok (pos 1, some (name ++ 0 ∷ [])) out
name_taken [] out fits =
    ap (λ (c : Cmd (List Output) (ℤ × Option (List ℕ))). c out)
      (fill_buffer-sent 1 0 [] _ refl (omega arith))
name_taken (c ∷ cs) out fits =
    ap (λ (m : Cmd (List Output) (ℤ × Option (List ℕ))). m out)
      (fill_buffer-sent (suc (length (c ∷ cs))) c (cs ++ 0 ∷ []) _
        (omega (arith, length-append {0} cs (0 ∷ []))) (omega (arith, fits)))

twice_sent :
    (s : Peer) (a b : Sent)
    → ok tt (record s { photo_lock = false; out = (s.out ++ a ∷ []) ++ b ∷ [] })
      ≡ ok tt (record s { photo_lock = false; out = s.out ++ a ∷ b ∷ [] })
twice_sent s a b =
    ap (λ o. ok tt (record s { photo_lock = false; out = o }))
      (append_assoc s.out (a ∷ []) (b ∷ []))

module _ (fuel : ℕ) (net : Answers) (s : Peer) (xs : Cells Data) where
  -- `gallery_get_photo_name` of the client with `send_photo_name` of the peer: the client
  -- returns 1 and the array with the name of the first photo with the id and its NUL, or 0 if
  -- there is none. (The peer's list is well formed, its mutex was free, the names have fewer
  -- than 100 characters and arrive in one piece, the id fits 32 bits, all can be sent and
  -- received, and the fuel is at least the number of photos.)
  pub gallery_get_photo_name-lookup :
      (id old : ℕ) (out : List Output)
      → IsList s.photos s.photo_list xs
      → s.photo_lock ≡ false
      → length xs ≤ fuel
      → id < 2 ^ 32
      → NamesFit xs
      → let m = request (decimal id) (pos 5) in
        (reply : List Sent) × (send_photo_name fuel net old m s
          ≡ ok tt (record s { photo_lock = false; out = s.out ++ reply }))
        × (gallery_get_photo_name true (size_received reply) (name_received reply) id out
            ≡ ok
                (elim (lookup id xs) [
                  | none ↦ (pos 0, none)
                  | some k ↦ (pos 1, some (k.name ++ 0 ∷ []))
                ])
                (out ++ to_peer m ∷ []))
  unfolding send_photo_name gallery_get_photo_name stream_and_send_photo lock_photos unlock_photos
      set_data
  gallery_get_photo_name-lookup id old out is unlocked enough small fit =
      let reads = scan_id-decimal id old small in
      let short = decimal-fits id in
      let at = list_search-find equal_data fuel s.photos s.photo_list xs (key id) is enough in
      let more : (k : Data) → length k.name + 1 ≡ suc (length k.name) = λ k. omega arith in
      elim (lookup-cases s.photos xs id is.1) [
        | inl (none_found, nothing) ↦ (
          int_sent (pos 0) ∷ [],
          rw (reads, unlocked, at, none_found) refl,
          rw (short, short, nothing) refl,
        )
        | inr (k, n, there, holds, is, same) ↦ (
          int_sent (pos (suc (length k.name))) ∷ text_sent k.name ∷ [],
          rw (reads, unlocked, at, ne→== _ null there, load-ok s.photos there holds, more k)
              (twice_sent s _ _),
          rw (short, short, is) (name_taken k.name _ (lookup-fits id xs k fit is)),
        )
      ]
