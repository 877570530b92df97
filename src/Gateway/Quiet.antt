-- ===== src/Gateway/Quiet.antt =====
-- Commands of the gateway that only send: `broadcastPeers` of gateway.c inside its section.
use psis_project.Base.{
  ℕ, zero, suc, ◌≡◌, refl, ◌∙◌, ℤ, Bool, true, false, Option, ◌==◌, if◌then◌else◌, Bool-cases,
  Option-cases, inl, inr,
}
use psis_project.Machine.{Run, ok, exited, fault, blocked, out_of_fuel, Cmd, and_then, ◌>>=◌}
use psis_project.Heap.{Ptr, null, load}
use psis_project.Cells.{first}
use psis_project.Text.{Text}
use psis_project.Msgs.{DataR, Connect, no_socket, accepted, refused, failed, is_online}
use psis_project.Gateway.{Gateway, Answers, excluded, broadcast_loop, on_heap, get_peer_list}

-- A run that ends with a result has changed nothing but what was sent.
abbrev pub Sends : {A : Type 0} → Gateway → Run Gateway A → Type 0
Sends s (ok a t) = (t.heap ≡ s.heap) × (t.peer_list ≡ s.peer_list) × (t.list_lock ≡ s.list_lock)
Sends s (exited code t) = Unit {0}
Sends s fault = Unit {0}
Sends s blocked = Unit {0}
Sends s out_of_fuel = Unit {0}

abbrev pub Quiet : {A : Type 0} → Cmd Gateway A → Type 0
Quiet m = (s : Gateway) → Sends s (m s)

Sends-later :
    {A : Type 0} (s t : Gateway) (r : Run Gateway A) → Sends s (ok tt t) → Sends t r → Sends s r
Sends-later s t (ok a u) (heap, root, held) (heap', root', held') =
    (heap' ∙ heap, root' ∙ root, held' ∙ held)
Sends-later s t (exited code u) before behind = tt
Sends-later s t fault before behind = tt
Sends-later s t blocked before behind = tt
Sends-later s t out_of_fuel before behind = tt

Sends-then :
    {A B : Type 0} (s : Gateway) (r : Run Gateway A) (k : A → Cmd Gateway B)
    → Sends s r
    → ((a : A) → Quiet (k a))
    → Sends s (and_then r k)
Sends-then s (ok a t) k before quiet = Sends-later s t (k a t) before (quiet a t)
Sends-then s (exited code u) k before quiet = tt
Sends-then s fault k before quiet = tt
Sends-then s blocked k before quiet = tt
Sends-then s out_of_fuel k before quiet = tt

Quiet-then :
    {A B : Type 0} (m : Cmd Gateway A) (k : A → Cmd Gateway B)
    → Quiet m
    → ((a : A) → Quiet (k a))
    → Quiet (m >>= k)
Quiet-then m k first next s = Sends-then s (m s) k (first s) next

pub Quiet-if :
    {A : Type 0} (b : Bool) (m n : Cmd Gateway A) → Quiet m → Quiet n → Quiet (if b then m else n)
Quiet-if true m n yes_quiet no_quiet = yes_quiet
Quiet-if false m n yes_quiet no_quiet = no_quiet

load-Quiet : (p : Ptr) → Quiet (on_heap (load p))
unfolding load
load-Quiet p s = elim (Bool-cases (p == null)) [
  | inl e ↦ rw e tt
  | inr e ↦ elim (Option-cases (s.heap p)) [
    | inl nothing ↦ rw (e, nothing) tt
    | inr (n, holds) ↦ rw (e, holds) (refl, refl, refl)
  ]
]

is_online-Quiet : (c : Connect) → Quiet (is_online c)
unfolding is_online
is_online-Quiet no_socket s = tt
is_online-Quiet (accepted fd) s = (refl, refl, refl)
is_online-Quiet refused s = (refl, refl, refl)
is_online-Quiet failed s = tt

pub broadcast_loop-Quiet :
    (net : Answers) (message : Text) (type : ℤ) (exc : Option DataR) (rounds : ℕ) (aux : Ptr)
    → Quiet (broadcast_loop net rounds aux message type exc)
unfolding broadcast_loop
broadcast_loop-Quiet net message type exc zero aux = λ s. tt
broadcast_loop-Quiet net message type exc (suc rounds) aux =
    Quiet-then (on_heap (load aux)) _ (load-Quiet aux) λ n.
      Quiet-then _ _
        (Quiet-if (excluded exc n.K) _ _ (λ s. (refl, refl, refl))
          (Quiet-then (is_online (net.connect n.K)) _ (is_online-Quiet (net.connect n.K)) λ fd.
            Quiet-then _ _
              (Quiet-if (fd == 0) _ _ (λ s. (refl, refl, refl)) (λ s. (refl, refl, refl)))
              (λ _ s. (refl, refl, refl))))
        λ aux'.
          Quiet-then get_peer_list _ (λ s. (refl, refl, refl))
            λ root.
              Quiet-if (aux' == root) _ _ (λ s. (refl, refl, refl))
                (broadcast_loop-Quiet net message type exc rounds aux')
