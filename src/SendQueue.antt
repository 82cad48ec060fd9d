-- ===== src/SendQueue.antt =====
-- The queue of a server's TCP requests: `advance_tcp_send_queue` of src/lib/ares_process.c, and the
-- vector that `write_tcp_data` fills.
use mathlib.Core.List.{append_assoc, append-nil}
use c_ares.Base.{
  ℕ, zero, suc, ◌-◌, ◌≤◌, ◌≡◌, refl, sym, ◌∙◌, ap, arith, Bool-cases, inl, inr, false, List, [],
  ◌∷◌, ◌++◌, length, length-append, take, drop, drop-nil, drop-append, drop-past, take-append,
  take-drop, leb, leb→le, ◌==◌, if◌then◌else◌,
}
use c_ares.Result.{Result, ok, fault, ◌>>=◌}
use c_ares.Cmd.Slots.{Slots, store, store-ok}

-- `struct send_request`: the bytes still to send, and the identifier of their query
pub record SendRequest : Type 0 where
  pub data_left : List ℕ
  pub owner_query : ℕ

-- the bytes of the vectors, or of the requests, in their order
abbrev pub joined : List (List ℕ) → List ℕ
joined [] = []
joined (bytes ∷ rest) = bytes ++ joined rest

abbrev pub queued : List SendRequest → List ℕ
queued [] = []
queued (r ∷ rs) = r.data_left ++ queued rs

-- a loop over the requests that ends at `maxn` vectors
unfoldable pub fill : ℕ → List SendRequest → Slots (List ℕ) → Result (Slots (List ℕ))
fill maxn [] vec = ok vec
fill maxn (r ∷ rs) vec = do
  vec' ← store r.data_left vec
  let rest = fill maxn rs vec'
  if leb maxn (length vec'.filled) then ok vec' else rest

-- The loop is left when the queue is empty.
abbrev pub unless_empty : List SendRequest → Result (List SendRequest) → Result (List SendRequest)
unless_empty [] next = ok []
unless_empty (r ∷ rs) next = next

unfoldable pub advance : ℕ → List SendRequest → Result (List SendRequest)
advance num_bytes [] = if num_bytes == 0 then ok [] else fault
advance num_bytes (r ∷ rs) =
    let next = advance (num_bytes - length r.data_left) rs in
    if num_bytes == 0
    then ok (r ∷ rs)
    else if leb (length r.data_left) num_bytes
    then unless_empty rs next
    else ok (record r { data_left = drop num_bytes r.data_left } ∷ rs)

-- The bytes that were taken have left the queue.
abbrev Sends : ℕ → List SendRequest → Result (List SendRequest) → Type 0
Sends n q run = (q' : List SendRequest) × (run ≡ ok q') × (queued q' ≡ drop n (queued q))

unless_empty-Sends :
    (n : ℕ) (q : List SendRequest) (run : Result (List SendRequest))
    → Sends n q run
    → Sends n q (unless_empty q run)
unless_empty-Sends n [] run sends = ([], refl, sym (drop-nil n))
unless_empty-Sends n (r ∷ rs) run sends = sends

pub advance-Sends : (n : ℕ) (q : List SendRequest) → n ≤ length (queued q) → Sends n q (advance n q)
unfolding advance
advance-Sends zero [] h = ([], refl, refl)
advance-Sends (suc n) [] h = absurd (omega arith)
advance-Sends zero (r ∷ rs) h = (r ∷ rs, refl, refl)
advance-Sends (suc n) (r ∷ rs) h =
    let positive : (suc n == 0) ≡ false = ground arith in
    elim (Bool-cases (leb (length r.data_left) (suc n))) [
      | inl whole ↦
          let le = leb→le (length r.data_left) (suc n) whole in
          let left = suc n - length r.data_left in
          let (q', run, same) =
            unless_empty-Sends left rs (advance left rs) (
              advance-Sends left rs
                (omega (arith, h, le, length-append r.data_left (queued rs)))) in
          (q', rw (positive, whole) run, same ∙ sym (drop-past (suc n) r.data_left (queued rs) le))
      | inr part ↦ (
        record r { data_left = drop (suc n) r.data_left } ∷ rs,
        rw (positive, part) refl,
        sym (drop-append (suc n) r.data_left (queued rs) (ground arith)),
      )
    ]

joined-append : (xs ys : List (List ℕ)) → joined (xs ++ ys) ≡ joined xs ++ joined ys
joined-append [] ys = refl
joined-append (x ∷ xs) ys =
    ap (λ t. x ++ t) (joined-append xs ys) ∙ sym (append_assoc x (joined xs) (joined ys))

-- Bytes that follow what was written, and come from the head of the queue.
pub fill-offers :
    (maxn : ℕ) (q : List SendRequest) (vec : Slots (List ℕ))
    → vec.free ≡ length q
    → (vec' : Slots (List ℕ)) × (bytes behind : List ℕ) × (fill maxn q vec ≡ ok vec')
      × (joined vec'.filled ≡ joined vec.filled ++ bytes)
      × (queued q ≡ bytes ++ behind)
unfolding fill
fill-offers maxn [] vec h = (vec, [], [], refl, sym (append-nil (joined vec.filled)), refl)
fill-offers maxn (r ∷ rs) vec h =
    let next : Slots (List ℕ) = record {
      free = length rs;
      filled = vec.filled ++ r.data_left ∷ [];
    } in
    let written : joined next.filled ≡ joined vec.filled ++ r.data_left =
      joined-append vec.filled (r.data_left ∷ [])
      ∙ ap (λ t. joined vec.filled ++ t) (append-nil r.data_left) in
    elim (Bool-cases (leb maxn (length next.filled))) [
      | inl full ↦ (
        next,
        r.data_left,
        queued rs,
        rw (store-ok r.data_left vec (length rs) (omega (arith, h)), full) refl,
        written,
        refl,
      )
      | inr room ↦
          let (vec', bytes, behind, run, same, splits) = fill-offers maxn rs next refl in
          (
            vec',
            r.data_left ++ bytes,
            behind,
            rw (store-ok r.data_left vec (length rs) (omega (arith, h)), room) run,
            same
                ∙ ap (λ t. t ++ bytes) written
                ∙ append_assoc (joined vec.filled) r.data_left bytes,
            ap (λ t. r.data_left ++ t) splits ∙ sym (append_assoc r.data_left bytes behind),
          )
    ]

-- A part that was taken of what was offered, and the rest, are the queue as it was.
pub offered-Sends :
    (n : ℕ) (offered behind : List ℕ) (q : List SendRequest)
    → queued q ≡ offered ++ behind
    → n ≤ length offered
    → (q' : List SendRequest) × (advance n q ≡ ok q') × (take n offered ++ queued q' ≡ queued q)
offered-Sends n offered behind q splits h =
    let (q', run, same) =
      advance-Sends n q (omega (arith, h, ap length splits, length-append offered behind)) in
    (
      q',
      run,
      rw same (
          ap (λ t. t ++ drop n (queued q))
            (sym (take-append n offered behind h) ∙ ap (take n) (sym splits))
          ∙ take-drop n (queued q)),
    )
